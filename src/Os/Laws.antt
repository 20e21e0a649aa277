-- ===== src/Os/Laws.antt =====
-- Readings of the world's log.
use nsjail.Common.{
  ℕ, suc, ◌≡◌, refl, ap, ◌⊎◌, inl, inr, Bool, false, List, [], ◌∷◌, ◌==◌, if◌then◌else◌,
}
use native.Mathlib.Omega.{arith}
use nsjail.Os.{
  Outcome, value, exited, replaced, endless, unfinished, Action, World, ◌>>=◌, Reply, fail, done,
  Event,
}

-- EINTR is 4.
abbrev pub interrupted : Reply → Bool
interrupted (fail e) = e == 4
interrupted (done n out) = false

-- How many calls a signal has interrupted.
abbrev pub interrupts : List Event → ℕ
interrupts [] = 0
interrupts ((c, r) ∷ log) = if interrupted r then suc (interrupts log) else interrupts log

pub Reply-cases :
    (r : Reply) → ((e : ℕ) × (r ≡ fail e)) ⊎ ((n : ℕ) × (out : List ℕ) × (r ≡ done n out))
Reply-cases (fail e) = inl (e, refl)
Reply-cases (done n out) = inr (n, out, refl)

module _ {A B : Type 0} (f : A → Action B) where
  of_outcome :
      (b : B) (r : Outcome A) (w : World)
      → (◌>>=◌ (λ _. (r, w)) f w).0 ≡ value b
      → (a : A) × (r ≡ value a) × ((f a w).0 ≡ value b)
  of_outcome b (value a) w h = (a, refl, h)
  of_outcome b (exited c) w h = absurd (ground arith)
  of_outcome b replaced w h = absurd (ground arith)
  of_outcome b endless w h = absurd (ground arith)
  of_outcome b unfinished w h = absurd (ground arith)

  -- A chain that returns a value has returned one at its first step.
  pub >>=-eq-value :
      (b : B) (m : Action A) (w : World)
      → ((m >>= f) w).0 ≡ value b
      → (a : A) × ((m w).0 ≡ value a) × ((f a (m w).1).0 ≡ value b)
  >>=-eq-value b m w h = let (r, w') = m w in of_outcome b r w' h

  -- A step that is known.
  pub >>=-value :
      (m : Action A) (w : World) (a : A) (w' : World) → m w ≡ (value a, w') → (m >>= f) w ≡ f a w'
  >>=-value m w a w' h = ap (λ r. ◌>>=◌ (λ _. r) f w) h
