-- ===== src/Contain/State.antt =====
-- What the calls of a process have made of it: the documented effect of each successful call on
-- the attributes that confine it. It reads the log, and nsjail does not compute with it.
pub mod Rules
use nsjail.Common.{
  ℕ, Bool, true, false, ◌||◌, Option, none, some, List, [], ◌∷◌, ◌==◌, if◌then◌else◌, ◌≡◌,
}
use nsjail.Os.{
  Syscall, prctl, set_seccomp, setresgid, setresuid, capset_none, prlimit, Reply, fail, done, Event,
  World, value, Action, ◌and_then◌,
}
use nsjail.Conf.{NsjConf}
use nsjail.Seccomp.Insn.{SockFilter}

pub record Proc : Type 0 where
  pub gid : Option ℕ
  pub uid : Option ℕ
  pub caps_cleared : Bool
  pub no_new_privs : Bool
  pub pdeathsig : Option ℕ
  pub filter : Option (List SockFilter)
  pub limit : ℕ → Option ℕ

abbrev pub fresh : Proc
fresh = record {
  gid = none;
  uid = none;
  caps_cleared = false;
  no_new_privs = false;
  pdeathsig = none;
  filter = none;
  limit = λ r. none;
}

abbrev pub prctl_effect : ℕ → ℕ → Proc → Proc
prctl_effect o v p =
    if o == 38
    then record p { no_new_privs = true }
    else if o == 1
    then record p { pdeathsig = some v }
    else p

abbrev pub effect : Event → Proc → Proc
effect (prctl o v, done n out) p = prctl_effect o v p
effect (set_seccomp prog, done n out) p = record p { filter = some prog }
effect (setresgid g, done n out) p = record p { gid = some g }
effect (setresuid u, done n out) p = record p { uid = some u }
effect (capset_none, done n out) p = record p { caps_cleared = true }
effect (prlimit r v, done n out) p = record p { limit = λ s. if r == s then some v else p.limit s }
effect e p = p

abbrev pub state : List Event → Proc
state [] = fresh
state (e ∷ log) = effect e (state log)

-- The process runs as the user and the group of the jail, with no capabilities unless it is to
-- keep them.
pub record HasDropped (conf : NsjConf) (p : Proc) : Type 0 where
  pub gid : p.gid ≡ some conf.inside_gid
  pub uid : p.uid ≡ some conf.inside_uid
  pub caps : conf.keep_caps || p.caps_cleared ≡ true

pub record IsLimited (conf : NsjConf) (p : Proc) : Type 0 where
  pub as_ : p.limit 9 ≡ some conf.rl_as
  pub core : p.limit 4 ≡ some conf.rl_core
  pub cpu : p.limit 0 ≡ some conf.rl_cpu
  pub fsize : p.limit 1 ≡ some conf.rl_fsize
  pub nofile : p.limit 7 ≡ some conf.rl_nofile
  pub nproc : p.limit 6 ≡ some conf.rl_nproc
  pub stack : p.limit 3 ≡ some conf.rl_stack

-- What `containContain` promises of the process.
pub record IsConfined (conf : NsjConf) (p : Proc) : Type 0 where
  pub dropped : HasDropped conf p
  pub limited : IsLimited conf p
  pub pdeathsig : p.pdeathsig ≡ some 9
