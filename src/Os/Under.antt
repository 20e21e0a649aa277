-- ===== src/Os/Under.antt =====
-- What is known of every value that an action can return on a given kernel.
use mathlib.Core.Path.{subst}
use nsjail.Common.{◌≡◌, refl, ◌∙◌, Bool, true, false, ◌∷◌, arith, if◌then◌else◌}
use nsjail.Os.{Kernel, Syscall, Reply, World, value, Action, pure, sys, ◌>>=◌}
use nsjail.Os.Laws.{>>=-eq-value}
use nsjail.Os.Quiet.{Quiet, same_kernel}
use nsjail.Os.Ensures.{Ensures}

pub record Under {A : Type 0} (k : Kernel) (P : A → Type 0) (m : Action A) : Type 0 where
  pub at : (w : World) → w.kernel ≡ k → (a : A) → (m w).0 ≡ value a → P a

module _ {A : Type 0} where
  pub Under-pure : (k : Kernel) (P : A → Type 0) (a : A) → P a → Under k P (pure a)
  Under-pure k P a p = record { at = λ w e b h. subst P (ground arith) p }

  pub Under-if :
      {k : Kernel} {P : A → Type 0} (b : Bool) (m n : Action A)
      → (b ≡ true → Under k P m)
      → (b ≡ false → Under k P n)
      → Under k P (if b then m else n)
  Under-if true m n um un = um refl
  Under-if false m n um un = un refl

  pub Under-Ensures : {k : Kernel} {P : A → Type 0} (m : Action A) → Ensures P m → Under k P m
  Under-Ensures m e = record { at = λ w _ a h. e.at w a h }

  pub Under-both :
      {k : Kernel} (P Q : A → Type 0) (m : Action A)
      → Under k P m
      → Ensures Q m
      → Under k (λ a. P a × Q a) m
  Under-both P Q m u e = record { at = λ w s a h. (u.at w s a h, e.at w a h) }

  pub Under-bind :
      {B : Type 0} {k : Kernel} (Q : B → Type 0) (P : A → Type 0) (m : Action B) (f : B → Action A)
      → Quiet m
      → Under k Q m
      → ((b : B) → Q b → Under k P (f b))
      → Under k P (m >>= f)
  Under-bind Q P m f s um uf = record {
    at = λ w e a h.
        let (b, first, second) = >>=-eq-value f a m w h in
        (uf b (um.at w e b first)).at (m w).1 (same_kernel m s w ∙ e) a second;
  }

  -- What follows is right on every kernel.
  pub Under-then :
      {B : Type 0} {k : Kernel} (Q : B → Type 0) (P : A → Type 0) (m : Action B) (f : B → Action A)
      → Under k Q m
      → ((b : B) → Q b → Ensures P (f b))
      → Under k P (m >>= f)
  Under-then Q P m f um ef = record {
    at = λ w e a h.
        let (b, first, second) = >>=-eq-value f a m w h in
        (ef b (um.at w e b first)).at (m w).1 a second;
  }

  -- A call of whose answer nothing is known.
  pub Under-sys :
      (k : Kernel) (P : A → Type 0) (c : Syscall) (f : Reply → Action A)
      → ((r : Reply) → Under k P (f r))
      → Under k P (sys c >>= f)
  Under-sys k P c f u = record {
    at = λ w e a h.
        (u (w.kernel w.log c)).at (record w { log = (c, w.kernel w.log c) ∷ w.log }) e a h;
  }
