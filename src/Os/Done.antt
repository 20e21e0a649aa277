-- ===== src/Os/Done.antt =====
-- Which calls have succeeded, by the world's log.
use mathlib.Core.Path.{subst}
use nsjail.Common.{
  ◌≡◌, refl, sym, ap, Bool, true, false, List, [], ◌∷◌, ◌++◌, arith, if◌then◌else◌, inl, inr, ◌⊎◌,
  ◌∙◌, Bool-cases,
}
use nsjail.Os.{Syscall, Event, World, value, Action, pure, succeeds, failed, ◌>>◌, ◌and_then◌}
use nsjail.Os.Quiet.{Quiet, added}
use nsjail.Os.Laws.{>>=-eq-value, >>=-value}

-- The call has succeeded.
abbrev pub Did : Syscall → List Event → Type 0
Did c [] = ⊥
Did c ((q, r) ∷ log) = ((c ≡ q) × (failed r ≡ false)) ⊎ Did c log

-- After `m` has returned true, `P` holds of the log.
pub record Makes (P : List Event → Type 0) (m : Action Bool) : Type 0 where
  pub at : (w : World) → (m w).0 ≡ value true → P (m w).1.log

-- A property of the log that holds on when more is done.
abbrev pub IsStable : (List Event → Type 0) → Type 0
IsStable P =
    (before after : List Event) → ((c : Syscall) → Did c before → Did c after) → P before → P after

-- It stays true whatever is called after.
abbrev pub IsLasting : (List Event → Type 0) → Type 0
IsLasting P = (new log : List Event) → P log → P (new ++ log)

Did-append : (c : Syscall) (new log : List Event) → Did c log → Did c (new ++ log)
Did-append c [] log d = d
Did-append c (e ∷ new) log d = inr (Did-append c new log d)

pub Did-Quiet :
    {A : Type 0} (m : Action A)
    → Quiet m
    → (c : Syscall) (w : World) → Did c w.log
    → Did c (m w).1.log
Did-Quiet m q c w d = let (new, e) = added m q w in subst (Did c) (sym e) (Did-append c new w.log d)

-- A chain that returns true has come through its first part.
pub and_then-true :
    (m n : Action Bool) (w : World)
    → ((m and_then n) w).0 ≡ value true
    → ((m w).0 ≡ value true) × ((m and_then n) w ≡ n (m w).1)
and_then-true m n w h =
    let f : Bool → Action Bool = λ ok. if ok then n else pure false in
    let (b, first, second) = >>=-eq-value f true m w h in
    elim (Bool-cases b) [
      | inl e ↦
          let first : (m w).0 ≡ value true = first ∙ ap value e in
          (first, >>=-value f m w true (m w).1 (ap (λ r. (r, (m w).1)) first))
      | inr e ↦ absurd (ground arith)
    ]

pub Makes-if :
    (P : List Event → Type 0) (b : Bool) (m n : Action Bool)
    → Makes P m
    → Makes P n
    → Makes P (if b then m else n)
Makes-if P true m n mm mn = mm
Makes-if P false m n mm mn = mn

pub Makes-first :
    (P : List Event → Type 0)
    → IsStable P
    → (m n : Action Bool) → Makes P m
    → Quiet n
    → Makes P (m and_then n)
Makes-first P s m n mm g = record {
  at = λ w h.
      let (first, e) = and_then-true m n w h in
      subst (λ r. P r.1.log) (sym e)
        (s (m w).1.log (n (m w).1).1.log (λ c d. Did-Quiet n g c (m w).1 d) (mm.at w first));
}

pub Makes-early :
    (P : List Event → Type 0)
    → IsLasting P
    → (m n : Action Bool) → Makes P m
    → Quiet n
    → Makes P (m and_then n)
Makes-early P s m n mm q = record {
  at = λ w h.
      let (first, e) = and_then-true m n w h in
      let (new, p) = added n q (m w).1 in
      subst (λ r. P r.1.log) (sym e) (subst P (sym p) (s new (m w).1.log (mm.at w first)));
}

pub Makes-second :
    (P : List Event → Type 0) (m n : Action Bool) → Makes P n → Makes P (m and_then n)
Makes-second P m n mn = record {
  at = λ w h.
      let (first, e) = and_then-true m n w h in
      subst (λ r. P r.1.log) (sym e) (mn.at (m w).1 (ap (λ r. r.0) (sym e) ∙ h));
}

pub Makes-both :
    (P Q : List Event → Type 0) (m : Action Bool)
    → Makes P m
    → Makes Q m
    → Makes (λ log. P log × Q log) m
Makes-both P Q m mp mq = record { at = λ w h. (mp.at w h, mq.at w h) }

pub Makes-succeeds : (c : Syscall) → Makes (Did c) (succeeds c)
Makes-succeeds c = record { at = λ w h. inl (refl, ground arith) }

-- After `m` has returned, `P` holds of the log.
pub record Leaves {A : Type 0} (P : List Event → Type 0) (m : Action A) : Type 0 where
  pub at : (w : World) (a : A) → (m w).0 ≡ value a → P (m w).1.log

module _ {A B : Type 0} {P : List Event → Type 0} where
  pub Leaves-first :
      (m : Action A) (n : Action B) → IsStable P → Leaves P m → Quiet n → Leaves P (m >> n)
  Leaves-first m n s lm g = record {
    at = λ w b h.
        let (a, first, second) = >>=-eq-value (λ _. n) b m w h in
        subst (λ r. P r.1.log)
          (sym (>>=-value (λ _. n) m w a (m w).1 (ap (λ r. (r, (m w).1)) first)))
          (s (m w).1.log (n (m w).1).1.log (λ c d. Did-Quiet n g c (m w).1 d) (lm.at w a first));
  }

  pub Leaves-second : (m : Action A) (n : Action B) → Leaves P n → Leaves P (m >> n)
  Leaves-second m n ln = record {
    at = λ w b h.
        let (a, first, second) = >>=-eq-value (λ _. n) b m w h in
        subst (λ r. P r.1.log)
          (sym (>>=-value (λ _. n) m w a (m w).1 (ap (λ r. (r, (m w).1)) first)))
          (ln.at (m w).1 b second);
  }
