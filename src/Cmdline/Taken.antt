-- ===== src/Cmdline/Taken.antt =====
-- cmdline.c: which options end in the help text. The usage exits with 0, and no failure does.
use mathlib.Core.Logic.{◌≢◌}
use nsjail.Common.{
  ℕ, zero, suc, ◌≡◌, refl, Bool, true, false, Option, none, some, if◌then◌else◌, arith, ◌||◌,
  get_or,
}
use nsjail.Common.Text.{bytes}
use nsjail.Os.{
  CString, Syscall, Reply, fail, done, getrlimit, Outcome, value, exited, replaced, endless,
  unfinished, World, Action, pure, exit, sys, ◌>>=◌,
}
use nsjail.Os.Quiet.{is_some}
use nsjail.Conf.{NsjConf}
use nsjail.Cmdline.Values.{numeric_limit, cmdline_parse_r_limit, errno_left, eq_nocase}
use nsjail.Cmdline.Switch.{Parse, on_conf}
use nsjail.Cmdline.Loop.{or_usage, limit_option}

-- The action never exits with 0.
pub record IsTaken {A : Type 0} (m : Action A) : Type 0 where
  pub at : (w : World) → (m w).0 ≢ exited 0

ended : (A : Type 0) → ℕ → Outcome A
ended A n = exited n

exited-ne : (A : Type 0) (n : ℕ) → ended A (suc n) ≢ ended A 0
unfolding ended
exited-ne A n e = absurd (ground arith)

module _ {A : Type 0} where
  IsTaken-pure : (a : A) → IsTaken (pure a)
  IsTaken-pure a = record { at = λ w e. absurd (ground arith) }

  IsTaken-exit : (n : ℕ) → IsTaken (exit {A = A} (suc n))
  unfolding ended
  IsTaken-exit n = record { at = λ w. exited-ne A n }

  IsTaken-if : (b : Bool) (m n : Action A) → IsTaken m → IsTaken n → IsTaken (if b then m else n)
  IsTaken-if true m n tm tn = tm
  IsTaken-if false m n tm tn = tn

  -- Each branch where its test decides for it.
  pub IsTaken-either :
      (b : Bool) (m n : Action A)
      → (b ≡ true → IsTaken m)
      → (b ≡ false → IsTaken n)
      → IsTaken (if b then m else n)
  IsTaken-either true m n tm tn = tm refl
  IsTaken-either false m n tm tn = tn refl

  IsTaken-outcome :
      {B : Type 0} (f : B → Action A) (r : Outcome B) (w : World)
      → r ≢ exited 0
      → ((b : B) → IsTaken (f b))
      → (◌>>=◌ (λ _. (r, w)) f w).0 ≢ exited 0
  unfolding ended
  IsTaken-outcome f (value b) w n t = (t b).at w
  IsTaken-outcome f (exited zero) w n t = absurd (n refl)
  IsTaken-outcome f (exited (suc code)) w n t = exited-ne A code
  IsTaken-outcome f replaced w n t = λ e. absurd (ground arith)
  IsTaken-outcome f endless w n t = λ e. absurd (ground arith)
  IsTaken-outcome f unfinished w n t = λ e. absurd (ground arith)

  IsTaken-bind :
      {B : Type 0} (m : Action B) (f : B → Action A)
      → IsTaken m
      → ((b : B) → IsTaken (f b))
      → IsTaken (m >>= f)
  IsTaken-bind m f tm tf = record { at = λ w. IsTaken-outcome f (m w).0 (m w).1 (tm.at w) tf }

IsTaken-sys : (c : Syscall) → IsTaken (sys c)
IsTaken-sys c = record { at = λ w e. absurd (ground arith) }

ruleset taken_rules = (IsTaken-pure, IsTaken-exit, IsTaken-if, IsTaken-bind, IsTaken-sys)

errno_left-IsTaken : (r : Reply) → IsTaken (errno_left r)
errno_left-IsTaken (fail e) = IsTaken-pure e
errno_left-IsTaken (done n out) = search taken_rules

numeric_limit-IsTaken : (optarg : CString) (mul : ℕ) → IsTaken (numeric_limit optarg mul)
unfolding numeric_limit
numeric_limit-IsTaken optarg mul = search (taken_rules, errno_left-IsTaken, IsTaken-exit 0)

cmdline_parse_r_limit-IsTaken :
    (res : ℕ) (optarg : CString) (mul : ℕ) → IsTaken (cmdline_parse_r_limit res optarg mul)
unfolding cmdline_parse_r_limit
cmdline_parse_r_limit-IsTaken res optarg mul =
    IsTaken-bind (sys (getrlimit res)) _ (IsTaken-sys (getrlimit res)) go
  where
    go :
        (r : Reply)
        → IsTaken {A = ℕ} (elim r [
          | fail e ↦ exit 1
          | done n cur ↦
              if eq_nocase optarg (bytes "max")
              then pure (get_or cur 1 0)
              else if eq_nocase optarg (bytes "def")
              then pure (get_or cur 0 0)
              else numeric_limit optarg mul
        ])
    go (fail e) = IsTaken-exit 0
    go (done n cur) = search (taken_rules, numeric_limit-IsTaken)

-- An option's action, if it has one.
pub AllTaken : Option (Action NsjConf) → Type 0
AllTaken none = Unit {0}
AllTaken (some m) = IsTaken m

AllTaken-if :
    (b : Bool) (m : Action NsjConf) (rest : Option (Action NsjConf))
    → IsTaken m
    → AllTaken rest
    → AllTaken (if b then some m else rest)
unfolding AllTaken
AllTaken-if true m rest t r = t
AllTaken-if false m rest t r = r

pub limit_option-AllTaken :
    (c : ℕ) (arg : CString) (conf : NsjConf) → AllTaken (limit_option c arg conf)
unfolding limit_option AllTaken
limit_option-AllTaken c arg conf =
    search (taken_rules, AllTaken-if, cmdline_parse_r_limit-IsTaken) depth 16

or_usage-IsTaken :
    (p : Parse) (found : Option Parse) → is_some found ≡ true → IsTaken (or_usage p found)
or_usage-IsTaken p none h = absurd (ground arith)
or_usage-IsTaken p (some p') h = IsTaken-pure p'

-- A number that is read by a call.
pub read-IsTaken :
    (c : Syscall) (p : Parse) (set : Reply → Option Parse)
    → ((r : Reply) → is_some (set r) ≡ true)
    → IsTaken (sys c >>= λ r. or_usage p (set r))
read-IsTaken c p set h =
    IsTaken-bind (sys c) _ (IsTaken-sys c) (λ r. or_usage-IsTaken p (set r) (h r))

-- After a limit's action, if the option is a limit.
pub limited-IsTaken :
    (p : Parse) (found : Option (Action NsjConf)) (rest : Option Parse)
    → AllTaken found
    → is_some found || is_some rest ≡ true
    → IsTaken (elim found [ some m ↦ m >>= λ conf. pure (on_conf p conf) | none ↦ or_usage p rest ])
unfolding AllTaken
limited-IsTaken p none rest t h = or_usage-IsTaken p rest h
limited-IsTaken p (some m) rest t h = search taken_rules
