-- ===== src/Os/Quiet.antt =====
-- Actions that add calls to the world's log, none of which executes a program by `execv`, and
-- leave the rest of the world as it is.
use mathlib.Core.List.{append_assoc}
use nsjail.Common.{
  ℕ, ◌≡◌, refl, sym, ap, ◌∙◌, Bool, true, false, List, [], ◌∷◌, ◌++◌, ◌||◌, if◌then◌else◌, Option,
  none, some,
}
use nsjail.Os.{
  CString, Syscall, execv, Event, Outcome, exited, replaced, endless, unfinished, World, value,
  Action, pure, exit, wait_forever, out_of_fuel, sys, ◌>>=◌, ◌and_then◌,
}

-- The program and its arguments, of a call that executes one.
abbrev pub argv_of : Syscall → Option (List CString)
argv_of (execv argv) = some argv
argv_of _ = none

abbrev pub is_some : {A : Type 0} → Option A → Bool
is_some none = false
is_some (some a) = true

abbrev pub is_execv : Syscall → Bool
is_execv c = is_some (argv_of c)

unfoldable pub calls_execv : List Event → Bool
calls_execv [] = false
calls_execv ((c, r) ∷ log) = is_execv c || calls_execv log

abbrev pub with_new : List Event → World → World
with_new new w = record w { log = new ++ w.log }

pub record Quiet {A : Type 0} (m : Action A) : Type 0 where
  pub at : (w : World) → (new : List Event) × ((m w).1 ≡ with_new new w) × (calls_execv new ≡ false)

-- What it has added.
pub added :
    {A : Type 0} (m : Action A)
    → Quiet m
    → (w : World) → (new : List Event) × ((m w).1.log ≡ new ++ w.log)
added m q w = let (new, e, _) = q.at w in (new, ap (λ v. v.log) e)

pub same_kernel : {A : Type 0} (m : Action A) → Quiet m → (w : World) → (m w).1.kernel ≡ w.kernel
same_kernel m q w = let (new, e, _) = q.at w in ap (λ v. v.kernel) e

or_assoc : (a b c : Bool) → (a || b) || c ≡ a || (b || c)
or_assoc true b c = refl
or_assoc false b c = refl

or_false : (a b : Bool) → a ≡ false → b ≡ false → a || b ≡ false
or_false true b p q = p
or_false false b p q = q

calls_execv-append :
    (xs ys : List Event) → calls_execv (xs ++ ys) ≡ calls_execv xs || calls_execv ys
unfolding calls_execv
calls_execv-append [] ys = refl
calls_execv-append ((c, r) ∷ xs) ys =
    ap (λ b. is_execv c || b) (calls_execv-append xs ys)
    ∙ sym (or_assoc (is_execv c) (calls_execv xs) (calls_execv ys))

quiet_end : (w : World) → (new : List Event) × (w ≡ with_new new w) × (calls_execv new ≡ false)
unfolding calls_execv
quiet_end w = ([], refl, refl)

module _ {A : Type 0} where
  pub Quiet-pure : (a : A) → Quiet (pure a)
  Quiet-pure a = record { at = quiet_end }

  pub Quiet-exit : (code : ℕ) → Quiet (exit {A = A} code)
  Quiet-exit code = record { at = quiet_end }

  pub Quiet-wait_forever : Quiet (wait_forever {A = A})
  Quiet-wait_forever = record { at = quiet_end }

  pub Quiet-replaced : Quiet {A = A} (λ w. (replaced, w))
  Quiet-replaced = record { at = quiet_end }

  pub Quiet-out_of_fuel : Quiet (out_of_fuel {A = A})
  Quiet-out_of_fuel = record { at = quiet_end }

  pub Quiet-if : (b : Bool) (m n : Action A) → Quiet m → Quiet n → Quiet (if b then m else n)
  Quiet-if true m n qm qn = qm
  Quiet-if false m n qm qn = qn

  Quiet-outcome :
      {B : Type 0} (f : B → Action A)
      → ((b : B) → Quiet (f b))
      → (r : Outcome B) (w : World)
      → (new : List Event) × ((◌>>=◌ (λ _. (r, w)) f w).1 ≡ with_new new w)
        × (calls_execv new ≡ false)
  Quiet-outcome f q (value b) w = (q b).at w
  Quiet-outcome f q (exited code) w = quiet_end w
  Quiet-outcome f q replaced w = quiet_end w
  Quiet-outcome f q endless w = quiet_end w
  Quiet-outcome f q unfinished w = quiet_end w

  pub Quiet-bind :
      {B : Type 0} (m : Action B) (f : B → Action A)
      → Quiet m
      → ((b : B) → Quiet (f b))
      → Quiet (m >>= f)
  Quiet-bind m f qm qf = record {
    at = λ w.
        let (first, p, none_first) = qm.at w in
        let (second, q, none_second) = Quiet-outcome f qf (m w).0 (m w).1 in
        (
          second ++ first,
          q
              ∙ ap (with_new second) p
              ∙ ap (λ l. record w { log = l }) (sym (append_assoc second first w.log)),
          calls_execv-append second first
              ∙ or_false (calls_execv second) (calls_execv first) none_second none_first,
        );
  }

pub Quiet-sys : (c : Syscall) → is_execv c ≡ false → Quiet (sys c)
unfolding calls_execv
Quiet-sys c h = record {
  at = λ w. ((c, w.kernel w.log c) ∷ [], refl, or_false (is_execv c) false h refl);
}

pub Quiet-and_then : (m n : Action Bool) → Quiet m → Quiet n → Quiet (m and_then n)
Quiet-and_then m n qm qn =
    Quiet-bind m _ qm (λ ok. Quiet-if ok n (pure false) qn (Quiet-pure false))

-- One rule for each way to build an action.
pub ruleset quiet_rules = (
  Quiet-pure, Quiet-exit, Quiet-wait_forever, Quiet-replaced, Quiet-out_of_fuel, Quiet-if,
  Quiet-bind, Quiet-sys,
)
