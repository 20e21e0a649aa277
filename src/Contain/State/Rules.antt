-- ===== src/Contain/State/Rules.antt =====
-- Rules for what an action leaves of the process, one for each way to build an action.
use mathlib.Core.Path.{subst}
use nsjail.Common.{not, Bool, true, false, not, ◌≡◌, refl, ◌∷◌, arith, ℕ, List, if◌then◌else◌}
use nsjail.Os.{
  Syscall, Reply, fail, done, World, Outcome, value, exited, replaced, endless, unfinished, Action,
  pure, sys, succeeds, failed, ◌>>=◌, ◌and_then◌,
}
use nsjail.Contain.State.{Proc, effect, state}

-- If `m` returns `a` from a world in which `P` holds of the process, then `Q a` holds after it.
pub record Ensures {A : Type 0} (P : Proc → Type 0) (m : Action A) (Q : A → Proc → Type 0)
    : Type 0 where
  pub at : (w : World) → P (state w.log) → (a : A) → (m w).0 ≡ value a → Q a (state (m w).1.log)

abbrev pub OnTrue : (Proc → Type 0) → Bool → Proc → Type 0
OnTrue Q b p = b ≡ true → Q p

abbrev pub Always : {A : Type 0} → (Proc → Type 0) → A → Proc → Type 0
Always Q a p = Q p

module _ {A B : Type 0} {Q : A → Proc → Type 0} {R : B → Proc → Type 0} where
  after :
      (f : A → Action B) (r : Outcome A) (w : World)
      → ((a : A) → Ensures (Q a) (f a) R)
      → ((a : A) → r ≡ value a → Q a (state w.log))
      → (b : B) → (◌>>=◌ (λ _. (r, w)) f w).0 ≡ value b
      → R b (state (◌>>=◌ (λ _. (r, w)) f w).1.log)
  after f (value a) w ef q b h = (ef a).at w (q a refl) b h
  after f (exited c) w ef q b h = absurd (ground arith)
  after f replaced w ef q b h = absurd (ground arith)
  after f endless w ef q b h = absurd (ground arith)
  after f unfinished w ef q b h = absurd (ground arith)

  pub Ensures-bind :
      {P : Proc → Type 0} (m : Action A) (f : A → Action B)
      → Ensures P m Q
      → ((a : A) → Ensures (Q a) (f a) R)
      → Ensures P (m >>= f) R
  Ensures-bind m f em ef = record {
    at = λ w p b h. let (r, w') = m w in after f r w' ef (λ a e. em.at w p a e) b h;
  }

module _ {A : Type 0} {P : Proc → Type 0} {Q : A → Proc → Type 0} where
  pub Ensures-pure : (a : A) → ((p : Proc) → P p → Q a p) → Ensures P (pure a) Q
  Ensures-pure a k = record {
    at = λ w p b h.
        let e : a ≡ b = ground arith in subst (λ x. Q x (state w.log)) e (k (state w.log) p);
  }

  pub Ensures-if :
      (b : Bool) (m n : Action A)
      → (b ≡ true → Ensures P m Q)
      → (b ≡ false → Ensures P n Q)
      → Ensures P (if b then m else n) Q
  Ensures-if true m n em en = em refl
  Ensures-if false m n em en = en refl

pub Ensures-sys :
    {P : Proc → Type 0} {Q : Reply → Proc → Type 0} (c : Syscall)
    → ((r : Reply) (p : Proc) → P p → Q r (effect (c, r) p))
    → Ensures P (sys c) Q
Ensures-sys {P} {Q} c k = record {
  at = λ w p b h.
      let r : Reply = w.kernel w.log c in
      let e : r ≡ b = ground arith in
      subst (λ x. Q x (state ((c, r) ∷ w.log))) e (k r (state w.log) p);
}

module _ {P Q R : Proc → Type 0} where
  pub Ensures-and_then :
      (m n : Action Bool)
      → Ensures P m (OnTrue Q)
      → Ensures Q n (OnTrue R)
      → Ensures P (m and_then n) (OnTrue R)
  Ensures-and_then m n em en = Ensures-bind m (λ ok. if ok then n else pure false) em go
    where
      go : (ok : Bool) → Ensures (OnTrue Q ok) (if ok then n else pure false) (OnTrue R)
      go true = record { at = λ w p. en.at w (p refl) }
      go false = Ensures-pure false (λ p _ e. absurd (ground arith))

-- A call that must succeed: only its effect when it succeeds counts.
pub Ensures-succeeds :
    {P Q : Proc → Type 0} (c : Syscall)
    → ((n : ℕ) (out : List ℕ) (p : Proc) → P p → Q (effect (c, done n out) p))
    → Ensures P (succeeds c) (OnTrue Q)
Ensures-succeeds {P} {Q} c k =
    Ensures-bind (sys c) (λ r. pure (not (failed r))) (Ensures-sys c (λ r p h. go r p h))
      (λ r. Ensures-pure (not (failed r)) (λ p q. q))
  where
    go : (r : Reply) (p : Proc) → P p → OnTrue Q (not (failed r)) (effect (c, r) p)
    go (fail e) p h t = absurd (ground arith)
    go (done n out) p h t = k n out p h

-- Actions that leave `P` alone, whatever they return.
abbrev pub Keeps : {A : Type 0} → (Proc → Type 0) → Action A → Type 0
Keeps P m = Ensures P m (Always P)

module _ {P : Proc → Type 0} where
  pub Keeps-sys :
      (c : Syscall) → ((r : Reply) (p : Proc) → P p → P (effect (c, r) p)) → Keeps P (sys c)
  Keeps-sys c k = Ensures-sys c k

  pub Keeps-pure : {A : Type 0} (a : A) → Keeps P (pure a)
  Keeps-pure a = Ensures-pure a (λ p h. h)

  pub Keeps-bind :
      {A B : Type 0} (m : Action A) (f : A → Action B)
      → Keeps P m
      → ((a : A) → Keeps P (f a))
      → Keeps P (m >>= f)
  Keeps-bind m f km kf = Ensures-bind m f km kf

  pub Keeps-if :
      {A : Type 0} (b : Bool) (m n : Action A)
      → Keeps P m
      → Keeps P n
      → Keeps P (if b then m else n)
  Keeps-if b m n km kn = Ensures-if b m n (λ _. km) (λ _. kn)

  pub Keeps-succeeds :
      (c : Syscall) → ((r : Reply) (p : Proc) → P p → P (effect (c, r) p)) → Keeps P (succeeds c)
  Keeps-succeeds c k = Keeps-bind (sys c) _ (Keeps-sys c k) (λ r. Keeps-pure (not (failed r)))

  pub Keeps-and_then : (m n : Action Bool) → Keeps P m → Keeps P n → Keeps P (m and_then n)
  Keeps-and_then m n km kn =
      Keeps-bind m _ km (λ ok. Keeps-if ok n (pure false) kn (Keeps-pure false))

  pub Keeps-OnTrue : (m : Action Bool) → Keeps P m → Ensures P m (OnTrue P)
  Keeps-OnTrue m k = record { at = λ w p b h _. k.at w p b h }
