-- ===== src/Os/Returns.antt =====
-- Actions that always return a value.
use nsjail.Common.{◌≡◌, refl, ap, ◌∙◌, Bool, true, false, if◌then◌else◌}
use nsjail.Os.{Syscall, World, value, Action, pure, sys, ◌>>=◌}
use nsjail.Os.Laws.{>>=-value}

pub record Returns {A : Type 0} (m : Action A) : Type 0 where
  pub at : (w : World) → (a : A) × ((m w).0 ≡ value a)

module _ {A : Type 0} where
  pub Returns-pure : (a : A) → Returns (pure a)
  Returns-pure a = record { at = λ w. (a, refl) }

  pub Returns-if :
      (b : Bool) (m n : Action A) → Returns m → Returns n → Returns (if b then m else n)
  Returns-if true m n rm rn = rm
  Returns-if false m n rm rn = rn

  pub Returns-bind :
      {B : Type 0} (m : Action B) (f : B → Action A)
      → Returns m
      → ((b : B) → Returns (f b))
      → Returns (m >>= f)
  Returns-bind m f rm rf = record {
    at = λ w.
        let (b, h) = rm.at w in
        let (a, g) = (rf b).at (m w).1 in
        (a, ap (λ r. r.0) (>>=-value f m w b (m w).1 (ap (λ r. (r, (m w).1)) h)) ∙ g);
  }

pub Returns-sys : (c : Syscall) → Returns (sys c)
Returns-sys c = record { at = λ w. (w.kernel w.log c, refl) }
