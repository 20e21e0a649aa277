-- ===== src/Cmdline/Flags.antt =====
-- cmdline.c: which of the Boolean settings an option departs from the default in.
pub mod Cases
pub mod Options
pub mod Whole
use mathlib.Core.Path.{subst}
use nsjail.Common.{
  ℕ, ◌≡◌, refl, Bool, true, false, not, ◌||◌, Option, none, some, List, [], ◌∷◌, ◌==◌, arith,
  if◌then◌else◌, inl, inr, Bool-cases,
}
use nsjail.Conf.{NsjConf}
use nsjail.Cmdline.Switch.{Parse}
use nsjail.Cmdline.Loop.{Opt}

-- The Boolean settings, each as a departure from its default.
pub record Given : Type 0 where
  pub daemonize : Bool
  pub verbose : Bool
  pub keep_env : Bool
  pub disable_clone_newnet : Bool
  pub disable_clone_newuser : Bool
  pub disable_clone_newns : Bool
  pub disable_clone_newpid : Bool
  pub disable_clone_newipc : Bool
  pub disable_clone_newuts : Bool
  pub enable_clone_newcgroup : Bool
  pub keep_caps : Bool
  pub silent : Bool
  pub disable_sandbox : Bool
  pub skip_setsid : Bool
  pub disable_no_new_privs : Bool
  pub pivot_root_only : Bool
  pub rw_root : Bool
  pub disable_proc : Bool
  pub iface_no_lo : Bool

abbrev pub given : NsjConf → Given
given conf = record {
  daemonize = conf.daemonize;
  verbose = conf.verbose;
  keep_env = conf.keep_env;
  disable_clone_newnet = not conf.clone_newnet;
  disable_clone_newuser = not conf.clone_newuser;
  disable_clone_newns = not conf.clone_newns;
  disable_clone_newpid = not conf.clone_newpid;
  disable_clone_newipc = not conf.clone_newipc;
  disable_clone_newuts = not conf.clone_newuts;
  enable_clone_newcgroup = conf.clone_newcgroup;
  keep_caps = conf.keep_caps;
  silent = conf.is_silent;
  disable_sandbox = not conf.apply_sandbox;
  skip_setsid = conf.skip_setsid;
  disable_no_new_privs = conf.disable_no_new_privs;
  pivot_root_only = conf.pivot_root_only;
  rw_root = conf.is_root_rw;
  disable_proc = not conf.mount_proc;
  iface_no_lo = conf.iface_no_lo;
}

-- What the test `b` on an option's number says of each setting.
abbrev pub each_flag : (ℕ → Bool) → Given
each_flag b = record {
  daemonize = b b'd';
  verbose = b b'v';
  keep_env = b b'e';
  disable_clone_newnet = b b'N';
  disable_clone_newuser = b 0x402;
  disable_clone_newns = b 0x403;
  disable_clone_newpid = b 0x404;
  disable_clone_newipc = b 0x405;
  disable_clone_newuts = b 0x406;
  enable_clone_newcgroup = b 0x407;
  keep_caps = b 0x501;
  silent = b 0x502;
  disable_sandbox = b 0x503;
  skip_setsid = b 0x504;
  disable_no_new_privs = b 0x507;
  pivot_root_only = b 0x506;
  rw_root = b 0x601;
  disable_proc = b 0x603;
  iface_no_lo = b 0x700;
}

abbrev pub occurs : List Opt → ℕ → Bool
occurs [] c = false
occurs (o ∷ opts) c = o.c == c || occurs opts c

abbrev pub both : Given → Given → Given
both g h = record {
  daemonize = g.daemonize || h.daemonize;
  verbose = g.verbose || h.verbose;
  keep_env = g.keep_env || h.keep_env;
  disable_clone_newnet = g.disable_clone_newnet || h.disable_clone_newnet;
  disable_clone_newuser = g.disable_clone_newuser || h.disable_clone_newuser;
  disable_clone_newns = g.disable_clone_newns || h.disable_clone_newns;
  disable_clone_newpid = g.disable_clone_newpid || h.disable_clone_newpid;
  disable_clone_newipc = g.disable_clone_newipc || h.disable_clone_newipc;
  disable_clone_newuts = g.disable_clone_newuts || h.disable_clone_newuts;
  enable_clone_newcgroup = g.enable_clone_newcgroup || h.enable_clone_newcgroup;
  keep_caps = g.keep_caps || h.keep_caps;
  silent = g.silent || h.silent;
  disable_sandbox = g.disable_sandbox || h.disable_sandbox;
  skip_setsid = g.skip_setsid || h.skip_setsid;
  disable_no_new_privs = g.disable_no_new_privs || h.disable_no_new_privs;
  pivot_root_only = g.pivot_root_only || h.pivot_root_only;
  rw_root = g.rw_root || h.rw_root;
  disable_proc = g.disable_proc || h.disable_proc;
  iface_no_lo = g.iface_no_lo || h.iface_no_lo;
}

-- What an option of the number `c` makes of the configuration.
abbrev pub Sets : ℕ → NsjConf → NsjConf → Type 0
Sets c conf conf' = given conf' ≡ both (each_flag (λ k. c == k)) (given conf)

abbrev pub SetsIn : ℕ → Parse → Parse → Type 0
SetsIn c p p' = Sets c p.conf p'.conf

-- One case of a switch.
pub case_of :
    {A : Type 0} (P : ℕ → A → Type 0) (c k : ℕ) {x r : A} {rest : Option A}
    → P k x
    → (rest ≡ some r → P c r)
    → (if c == k then some x else rest) ≡ some r
    → P c r
case_of P c k {x} {r} p q h = elim (Bool-cases (c == k)) [
  | inl e ↦
      let number : k ≡ c = ground arith in
      let result : x ≡ r = ground arith in subst (λ c. P c r) number (subst (P k) result p)
  | inr e ↦ q (ground arith)
]

pub default_of : {A : Type 0} (P : Type 0) {r : A} → none ≡ some r → P
default_of P h = absurd (ground arith)
