-- ===== src/Os/Guarded.antt =====
-- What is true whenever a program is executed: a property of the program and of the calls made
-- before, through every way to build an action.
use mathlib.Core.Path.{subst}
use mathlib.Core.List.{append-nil}
use nsjail.Common.{
  ◌≡◌, refl, sym, Bool, true, false, Option, none, some, List, [], ◌∷◌, ◌++◌, ◌||◌, arith,
  if◌then◌else◌,
}
use nsjail.Os.{
  CString, Event, Outcome, exited, replaced, endless, unfinished, World, value, Action, ◌>>=◌,
}
use nsjail.Os.Quiet.{Quiet, is_some, argv_of, is_execv, calls_execv}
use nsjail.Os.Ensures.{Ensures}

abbrev OfProgram :
    (List CString → List Event → Type 0) → Option (List CString) → List Event → Type 0
OfProgram R none earlier = Unit {0}
OfProgram R (some argv) earlier = R argv earlier

-- `R` holds of each program that `execv` was called with, and of what had been called by then.
unfoldable pub Guarded : (List CString → List Event → Type 0) → List Event → Type 0
Guarded R [] = Unit {0}
Guarded R ((c, r) ∷ earlier) = OfProgram R (argv_of c) earlier × Guarded R earlier

pub record Guards {A : Type 0} (R : List CString → List Event → Type 0) (m : Action A)
    : Type 0 where
  pub at : (w : World) → Guarded R w.log → Guarded R (m w).1.log

no_program :
    (R : List CString → List Event → Type 0) (argv : Option (List CString)) (earlier : List Event)
    → is_some argv ≡ false
    → OfProgram R argv earlier
no_program R none earlier h = tt
no_program R (some argv) earlier h = absurd (ground arith)

neither : (a b : Bool) → a || b ≡ false → (a ≡ false) × (b ≡ false)
neither true b h = absurd (ground arith)
neither false b h = (refl, h)

module _ (R : List CString → List Event → Type 0) where
  pub Guarded-append :
      (new earlier : List Event)
      → calls_execv new ≡ false
      → Guarded R earlier
      → Guarded R (new ++ earlier)
  unfolding Guarded calls_execv
  Guarded-append [] earlier h g = g
  Guarded-append ((c, r) ∷ new) earlier h g =
      let (first, rest) = neither (is_execv c) (calls_execv new) h in
      (no_program R (argv_of c) (new ++ earlier) first, Guarded-append new earlier rest g)

  -- Before anything is executed.
  pub Guarded-start : (log : List Event) → calls_execv log ≡ false → Guarded R log
  unfolding Guarded
  Guarded-start log h = subst (Guarded R) (append-nil log) (Guarded-append log [] h tt)

-- What follows an action that has ended as `r` says, in the world `w`.
pub Guarded-outcome :
    (R : List CString → List Event → Type 0) {A B : Type 0} (f : B → Action A) (r : Outcome B)
    (w : World)
    → ((b : B) → r ≡ value b → Guarded R (f b w).1.log)
    → Guarded R w.log
    → Guarded R (◌>>=◌ (λ _. (r, w)) f w).1.log
Guarded-outcome R f (value b) w next g = next b refl
Guarded-outcome R f (exited code) w next g = g
Guarded-outcome R f replaced w next g = g
Guarded-outcome R f endless w next g = g
Guarded-outcome R f unfinished w next g = g

module _ {R : List CString → List Event → Type 0} {A : Type 0} where
  pub Guards-Quiet : (m : Action A) → Quiet m → Guards R m
  Guards-Quiet m q = record {
    at = λ w g.
        let (new, e, quiet) = q.at w in
        subst (λ v. Guarded R v.log) (sym e) (Guarded-append R new w.log quiet g);
  }

  pub Guards-if :
      (b : Bool) (m n : Action A) → Guards R m → Guards R n → Guards R (if b then m else n)
  Guards-if true m n gm gn = gm
  Guards-if false m n gm gn = gn

  -- With what is known of the world after the first part.
  pub Guards-after :
      {B : Type 0} (m : Action B) (f : B → Action A)
      → Guards R m
      → ((w : World) (b : B)
          → (m w).0 ≡ value b
          → Guarded R (m w).1.log
          → Guarded R (f b (m w).1).1.log)
      → Guards R (m >>= f)
  Guards-after m f gm next = record {
    at = λ w g. let h = gm.at w g in Guarded-outcome R f (m w).0 (m w).1 (λ b e. next w b e h) h;
  }

  -- With what is known of the value of the first part.
  pub Guards-bind :
      {B : Type 0} (Q : B → Type 0) (m : Action B) (f : B → Action A)
      → Guards R m
      → Ensures Q m
      → ((b : B) → Q b → Guards R (f b))
      → Guards R (m >>= f)
  Guards-bind Q m f gm em gf = Guards-after m f gm (λ w b e h. (gf b (em.at w b e)).at (m w).1 h)

  -- With nothing known of it.
  pub Guards-then :
      {B : Type 0} (m : Action B) (f : B → Action A)
      → Guards R m
      → ((b : B) → Guards R (f b))
      → Guards R (m >>= f)
  Guards-then m f gm gf = Guards-after m f gm (λ w b e h. (gf b).at (m w).1 h)
