-- ===== src/Cmdline/Enforced/Settings.antt =====
-- cmdline.c: the options besides --rlimit_* leave the limits of `struct nsjconf_t` as they are.
use nsjail.Common.{ℕ, ◌≡◌, Bool, true, false, Option, none, some, List, if◌then◌else◌, ◌==◌}
use nsjail.Os.{CString}
use nsjail.Conf.{NsjConf, NsMode}
use nsjail.Cmdline.Switch.{
  Parse, on_conf, flag_option, text_option, persona_option, local_option, list_option,
}
use nsjail.Cmdline.Loop.{Opt, set_number, set_long, quiet_option, set_tmpfs_size, moded, mode_of}
use nsjail.Cmdline.Enforced.{limits}

-- `P` holds of what there is.
pub data Holds {A : Type 0} (P : A → Type 0) : Option A → Type 0 where
  nothing : Holds P none
  just : {a : A} → P a → Holds P (some a)

pub Holds-if :
    {A : Type 0} {P : A → Type 0} (b : Bool) (a : A) (rest : Option A)
    → P a
    → Holds P rest
    → Holds P (if b then some a else rest)
Holds-if true a rest p r = just p
Holds-if false a rest p r = r

module _ (ns : List ℕ) where
  abbrev pub AreKept : NsjConf → Type 0
  AreKept conf = limits conf ≡ ns

  abbrev pub IsKept : Parse → Type 0
  IsKept p = AreKept p.conf

  flag_option-AreKept : (c : ℕ) (conf : NsjConf) → AreKept conf → Holds AreKept (flag_option c conf)
  unfolding flag_option
  flag_option-AreKept c conf t = search (Holds-if, nothing) depth 24

  text_option-AreKept :
      (c : ℕ) (arg : CString) (conf : NsjConf)
      → AreKept conf
      → Holds AreKept (text_option c arg conf)
  unfolding text_option
  text_option-AreKept c arg conf t = search (Holds-if, nothing) depth 24

  persona_option-AreKept :
      (c : ℕ) (conf : NsjConf) → AreKept conf → Holds AreKept (persona_option c conf)
  unfolding persona_option
  persona_option-AreKept c conf t = search (Holds-if, nothing) depth 24

  local_option-IsKept :
      (c : ℕ) (arg : CString) (p : Parse) → IsKept p → Holds IsKept (local_option c arg p)
  unfolding local_option
  local_option-IsKept c arg p t = search (Holds-if, nothing) depth 24

  list_option-IsKept :
      (c : ℕ) (arg : CString) (p : Parse) → IsKept p → Holds IsKept (list_option c arg p)
  unfolding list_option
  list_option-IsKept c arg p t = search (Holds-if, nothing) depth 24

  moded-IsKept : (p : Parse) (mode : Option NsMode) → IsKept p → Holds IsKept (moded p mode)
  moded-IsKept p none t = nothing
  moded-IsKept p (some mode) t = just t

  -- The first part that has the option.
  on_first :
      (p : Parse) (found : Option NsjConf) (rest : Option Parse)
      → Holds AreKept found
      → Holds IsKept rest
      → Holds IsKept (elim found [ some conf ↦ some (on_conf p conf) | none ↦ rest ])
  on_first p none rest f r = r
  on_first p (some conf) rest (just t) r = just t

  or_next :
      (found rest : Option Parse)
      → Holds IsKept found
      → Holds IsKept rest
      → Holds IsKept (elim found [ some p ↦ some p | none ↦ rest ])
  or_next none rest f r = r
  or_next (some p) rest f r = f

  pub quiet_option-IsKept : (o : Opt) (p : Parse) → IsKept p → Holds IsKept (quiet_option o p)
  unfolding quiet_option
  quiet_option-IsKept o p t =
      on_first p (flag_option o.c p.conf) _ (flag_option-AreKept o.c p.conf t) (
        on_first p (text_option o.c o.optarg p.conf) _ (text_option-AreKept o.c o.optarg p.conf t) (
          on_first p (persona_option o.c p.conf) _ (persona_option-AreKept o.c p.conf t) (
            or_next (local_option o.c o.optarg p) _ (local_option-IsKept o.c o.optarg p t) (
              or_next (list_option o.c o.optarg p) _ (list_option-IsKept o.c o.optarg p t)
                (last (o.c == b'M'))))))
    where
      last : (b : Bool) → Holds IsKept (if b then moded p (mode_of o.optarg) else none)
      last true = moded-IsKept p (mode_of o.optarg) t
      last false = nothing

  pub set_number-IsKept : (c n : ℕ) (p : Parse) → IsKept p → Holds IsKept (set_number c n p)
  unfolding set_number set_tmpfs_size
  set_number-IsKept c n p t = search (Holds-if, nothing) depth 24

  pub set_long-IsKept : (c n : ℕ) (p : Parse) → IsKept p → Holds IsKept (set_long c n p)
  unfolding set_long
  set_long-IsKept c n p t = search (Holds-if, nothing) depth 24
