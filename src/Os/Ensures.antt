-- ===== src/Os/Ensures.antt =====
-- What is known of every value that an action can return.
use mathlib.Core.Path.{subst}
use nsjail.Common.{ℕ, ◌≡◌, Bool, true, false, Option, none, some, if◌then◌else◌, arith}
use nsjail.Os.{World, value, Action, pure, exit, out_of_fuel, ◌>>=◌}
use nsjail.Os.Laws.{>>=-eq-value}

pub record Ensures {A : Type 0} (P : A → Type 0) (m : Action A) : Type 0 where
  pub at : (w : World) (a : A) → (m w).0 ≡ value a → P a

module _ {A : Type 0} (P : A → Type 0) where
  pub Ensures-pure : {a : A} → P a → Ensures P (pure a)
  Ensures-pure {a} p = record { at = λ w b h. subst P (ground arith) p }

  pub Ensures-exit : (n : ℕ) → Ensures P (exit n)
  Ensures-exit n = record { at = λ w b h. absurd (ground arith) }

  pub Ensures-if :
      (b : Bool) (m n : Action A) → Ensures P m → Ensures P n → Ensures P (if b then m else n)
  Ensures-if true m n em en = em
  Ensures-if false m n em en = en

  -- After a first part of whose value nothing is known.
  pub Ensures-after :
      {B : Type 0} (m : Action B) (f : B → Action A)
      → ((b : B) → Ensures P (f b))
      → Ensures P (m >>= f)
  Ensures-after m f e = record {
    at = λ w a h. let (b, first, second) = >>=-eq-value f a m w h in (e b).at (m w).1 a second;
  }

  pub Ensures-bind :
      {B : Type 0} (Q : B → Type 0) (m : Action B) (f : B → Action A)
      → Ensures Q m
      → ((b : B) → Q b → Ensures P (f b))
      → Ensures P (m >>= f)
  Ensures-bind Q m f em e = record {
    at = λ w a h.
        let (b, first, second) = >>=-eq-value f a m w h in
        (e b (em.at w b first)).at (m w).1 a second;
  }

pub Ensures-map :
    {A : Type 0} (P Q : A → Type 0)
    → ((a : A) → P a → Q a)
    → (m : Action A) → Ensures P m
    → Ensures Q m
Ensures-map P Q f m e = record { at = λ w a h. f a (e.at w a h) }

pub Ensures-option :
    {A B : Type 0} (P : A → Type 0) (x : Option B) (n : Action A) (s : B → Action A)
    → Ensures P n
    → ((b : B) → Ensures P (s b))
    → Ensures P (elim x [ none ↦ n | some b ↦ s b ])
Ensures-option P none n s en es = en
Ensures-option P (some b) n s en es = es b

pub Ensures-out_of_fuel : {A : Type 0} (P : A → Type 0) → Ensures P out_of_fuel
Ensures-out_of_fuel P = record { at = λ w b h. absurd (ground arith) }
