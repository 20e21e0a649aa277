-- ===== src/Cmdline/Enforced.antt =====
-- cmdline.c and contain.c: what becomes of the options --rlimit_*.
mod Tests
pub mod Settings
pub mod Steps
pub mod Whole
use nsjail.Common.{
  ℕ, ◌*◌, ◌+◌, ◌<◌, ◌≢◌, ◌==◌, get_or, set, get_or-set_self, get_or-set_ne, arith, none, ◌≡◌, refl,
  ap, ◌∙◌, Bool, true, Option, some, List, [], ◌∷◌, if◌then◌else◌,
}
use nsjail.Common.Text.{bytes, eq_bytes}
use nsjail.Os.{Kernel, CString, World, Outcome, value, Action, pure, ◌>>=◌}
use nsjail.Os.Laws.{>>=-eq-value}
use nsjail.Conf.{NsjConf}
use nsjail.Contain.{contain_contain}
use nsjail.Contain.State.{Proc, IsLimited}
use nsjail.Contain.Whole.{contain_contain-IsConfined}
use nsjail.Cmdline.Values.{cmdline_parse_r_limit}
use nsjail.Cmdline.Switch.{Parse, on_conf}
use nsjail.Cmdline.Loop.{Opt, limit_option, apply_option}
use nsjail.Cmdline.Table.{CustomOption, custom_opts}

pub data Limit : Type 0 where
  as_ core cpu fsize nofile nproc stack : Limit

-- The options, and what the help text says of them: a resource, here as <sys/resource.h> numbers
-- it, and whether its limit is told in megabytes.
abbrev pub name_of : Limit → CString
name_of as_ = bytes "rlimit_as"
name_of core = bytes "rlimit_core"
name_of cpu = bytes "rlimit_cpu"
name_of fsize = bytes "rlimit_fsize"
name_of nofile = bytes "rlimit_nofile"
name_of nproc = bytes "rlimit_nproc"
name_of stack = bytes "rlimit_stack"

abbrev pub resource : Limit → ℕ
resource as_ = 9
resource core = 4
resource cpu = 0
resource fsize = 1
resource nofile = 7
resource nproc = 6
resource stack = 3

abbrev pub unit_of : Limit → ℕ
unit_of as_ = 1048576
unit_of core = 1048576
unit_of cpu = 1
unit_of fsize = 1048576
unit_of nofile = 1
unit_of nproc = 1
unit_of stack = 1048576

-- What `getopt_long` returns for the option of that name, by the table.
abbrev pub val_of : CString → List CustomOption → ℕ
val_of name [] = 0
val_of name (o ∷ opts) = if eq_bytes o.name name then o.val else val_of name opts

-- The number was read from that argument, on that kernel.
pub record IsRead (k : Kernel) (l : Limit) (arg : CString) (unit n : ℕ) : Type 0 where
  pub world : World
  pub kernel : world.kernel ≡ k
  pub read : (cmdline_parse_r_limit (resource l) arg unit world).0 ≡ value n

-- Which limit stands for an option that was not given: megabytes for the first and the fourth,
-- seconds for the third, and for the last two what the process had.
abbrev pub IsDefault : Kernel → Limit → ℕ → Type 0
IsDefault k as_ n = n ≡ 512 * 1048576
IsDefault k core n = n ≡ 0
IsDefault k cpu n = n ≡ 600
IsDefault k fsize n = n ≡ 1048576
IsDefault k nofile n = n ≡ 32
IsDefault k nproc n = IsRead k nproc (bytes "def") 1 n
IsDefault k stack n = IsRead k stack (bytes "def") 1 n

-- And for one that was given with that argument.
abbrev pub IsGiven : Kernel → Limit → Option CString → ℕ → Type 0
IsGiven k l none n = IsDefault k l n
IsGiven k l (some arg) n = IsRead k l arg (unit_of l) n

-- The argument of the last of the options that is `l`, and else the one before all of them.
abbrev pub chosen : Limit → Opt → Option CString → Option CString
chosen l o before = if o.c == val_of (name_of l) custom_opts then some o.optarg else before

abbrev pub latest : Limit → Option CString → List Opt → Option CString
latest l before [] = before
latest l before (o ∷ opts) = latest l (chosen l o before) opts

-- The option as it is found.
abbrev pub limit_opt : Limit → CString → Opt
limit_opt l arg = record { c = val_of (name_of l) custom_opts; optarg = arg }

abbrev value_or : {A : Type 0} → A → Outcome A → A
value_or a (value b) = b
value_or a _ = a

pub after_limit :
    (m : Action ℕ) (set : ℕ → NsjConf) (p p' : Parse) (w : World)
    → (((m >>= λ n. pure (set n)) >>= λ conf. pure (on_conf p conf)) w).0 ≡ value p'
    → (n : ℕ) × ((m w).0 ≡ value n) × (set n ≡ p'.conf)
after_limit m set p p' w h =
    let (conf, first, second) =
      >>=-eq-value (λ conf. pure (on_conf p conf)) p' (m >>= λ n. pure (set n)) w h in
    let (n, read, given) = >>=-eq-value (λ n. pure (set n)) conf m w first in
    (n, read, ap (value_or (set n)) given ∙ ap (λ o. (value_or p o).conf) second)

-- The limits of a configuration, in the order of the options.
abbrev pub limits : NsjConf → List ℕ
limits conf =
    conf.rl_as ∷ conf.rl_core ∷ conf.rl_cpu ∷ conf.rl_fsize ∷ conf.rl_nofile ∷ conf.rl_nproc
    ∷ conf.rl_stack ∷ []

abbrev pub index : Limit → ℕ
index as_ = 0
index core = 1
index cpu = 2
index fsize = 3
index nofile = 4
index nproc = 5
index stack = 6

abbrev pub setting : Limit → NsjConf → ℕ
setting l conf = get_or (limits conf) (index l) 0

pub IsLimited-resource :
    (l : Limit) (conf : NsjConf) (p : Proc)
    → IsLimited conf p
    → p.limit (resource l) ≡ some (setting l conf)
IsLimited-resource as_ conf p h = h.as_
IsLimited-resource core conf p h = h.core
IsLimited-resource cpu conf p h = h.cpu
IsLimited-resource fsize conf p h = h.fsize
IsLimited-resource nofile conf p h = h.nofile
IsLimited-resource nproc conf p h = h.nproc
IsLimited-resource stack conf p h = h.stack

unfoldable pub put : Limit → NsjConf → ℕ → NsjConf
put as_ conf n = record conf { rl_as = n }
put core conf n = record conf { rl_core = n }
put cpu conf n = record conf { rl_cpu = n }
put fsize conf n = record conf { rl_fsize = n }
put nofile conf n = record conf { rl_nofile = n }
put nproc conf n = record conf { rl_nproc = n }
put stack conf n = record conf { rl_stack = n }

limits-put :
    (l : Limit) (conf : NsjConf) (n : ℕ) → limits (put l conf n) ≡ set (limits conf) (index l) n
unfolding put
limits-put as_ conf n = refl
limits-put core conf n = refl
limits-put cpu conf n = refl
limits-put fsize conf n = refl
limits-put nofile conf n = refl
limits-put nproc conf n = refl
limits-put stack conf n = refl

index-lt : (l : Limit) → index l < 7
index-lt as_ = omega arith
index-lt core = omega arith
index-lt cpu = omega arith
index-lt fsize = omega arith
index-lt nofile = omega arith
index-lt nproc = omega arith
index-lt stack = omega arith

pub setting-put : (l : Limit) (conf : NsjConf) (n : ℕ) → setting l (put l conf n) ≡ n
setting-put l conf n =
    rw (limits-put l conf n) (get_or-set_self (limits conf) (index l) n 0 (index-lt l))

pub setting-put_ne :
    (l other : Limit) (conf : NsjConf) (n : ℕ)
    → index other ≢ index l
    → setting l (put other conf n) ≡ setting l conf
setting-put_ne l other conf n ne =
    rw (limits-put other conf n) (get_or-set_ne (limits conf) (index other) (index l) n 0 ne)

pub val_of-index : (l : Limit) → val_of (name_of l) custom_opts ≡ 0x201 + index l
unfolding custom_opts
val_of-index as_ = refl
val_of-index core = refl
val_of-index cpu = refl
val_of-index fsize = refl
val_of-index nofile = refl
val_of-index nproc = refl
val_of-index stack = refl

abbrev pub reading : Limit → CString → Action ℕ
reading l arg = cmdline_parse_r_limit (resource l) arg (unit_of l)

pub apply_option-limit_opt :
    (l : Limit) (arg : CString) (p : Parse)
    → apply_option (limit_opt l arg) p
      ≡ ((reading l arg >>= λ n. pure (put l p.conf n)) >>= λ conf. pure (on_conf p conf))
unfolding apply_option limit_option custom_opts put
apply_option-limit_opt as_ arg p = refl
apply_option-limit_opt core arg p = refl
apply_option-limit_opt cpu arg p = refl
apply_option-limit_opt fsize arg p = refl
apply_option-limit_opt nofile arg p = refl
apply_option-limit_opt nproc arg p = refl
apply_option-limit_opt stack arg p = refl
