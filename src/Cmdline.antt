-- ===== src/Cmdline.antt =====
-- cmdline.c: `cmdlineParse`. What `getopt_long` finds is an argument, the list of the options with
-- their `optarg`, and so are the arguments from `optind` on.
mod Tests
pub mod Table
pub mod Taken
pub mod Options
pub mod Params
pub mod Enforced
pub mod Known
pub mod Kept
pub mod Values
pub mod Switch
pub mod Loop
pub mod Mapping
pub mod Flags
pub mod Limits
use nsjail.Common.{
  ℕ, ◌+◌, ◌*◌, Bool, true, false, not, Option, none, some, List, [], ◌∷◌, if◌then◌else◌,
}
use nsjail.Common.Int.{pos}
use nsjail.Common.Text.{bytes}
use nsjail.Os.{CString, getuid, getgid, Action, pure, sys, result_of, ◌>>=◌}
use nsjail.Conf.{NsjConf, MountPt, standalone_once}
use nsjail.Log.{Log, initial, log_init_log_file}
use nsjail.Cmdline.Values.{cmdline_parse_r_limit, cmdline_parse_uid, cmdline_parse_gid}
use nsjail.Cmdline.Switch.{Parse, ms_rdonly, ms_bind_rec}
use nsjail.Cmdline.Loop.{Opt, megabyte, tmpfs_options, usage, apply_options}

-- The initialiser, with what its calls have returned.
abbrev pub defaults : ℕ → ℕ → ℕ → ℕ → ℕ → ℕ → NsjConf
defaults rl_nproc rl_stack inside_uid inside_gid outside_uid outside_gid = record {
  hostname = bytes "NSJAIL";
  cwd = bytes "/";
  argv = [];
  port = pos 0;
  bindhost = bytes "::";
  daemonize = false;
  tlimit = pos 0;
  apply_sandbox = true;
  pivot_root_only = false;
  verbose = false;
  keep_env = false;
  keep_caps = false;
  disable_no_new_privs = false;
  rl_as = 512 * megabyte;
  rl_core = 0;
  rl_cpu = 600;
  rl_fsize = 1 * megabyte;
  rl_nofile = 32;
  rl_nproc = rl_nproc;
  rl_stack = rl_stack;
  personality = 0;
  clone_newnet = true;
  clone_newuser = true;
  clone_newns = true;
  clone_newpid = true;
  clone_newipc = true;
  clone_newuts = true;
  clone_newcgroup = false;
  mode = standalone_once;
  chroot = none;
  is_root_rw = false;
  is_silent = false;
  skip_setsid = false;
  outside_uid = outside_uid;
  outside_gid = outside_gid;
  inside_uid = inside_uid;
  inside_gid = inside_gid;
  max_conns_per_ip = 0;
  tmpfs_size = 4 * megabyte;
  mount_proc = true;
  iface_no_lo = false;
  iface = none;
  iface_vs_ip = bytes "0.0.0.0";
  iface_vs_nm = bytes "255.255.255.0";
  iface_vs_gw = bytes "0.0.0.0";
  cgroup_mem_mount = bytes "/sys/fs/cgroup/memory";
  cgroup_mem_parent = bytes "NSJAIL";
  cgroup_mem_max = 0;
  envs = [];
  pids = [];
  mountpts = [];
  open_fds = pos 2 ∷ pos 1 ∷ pos 0 ∷ [];
  uid_mappings = [];
  gid_mappings = [];
}

abbrev pub start_of : NsjConf → Parse
start_of conf = record {
  conf = conf;
  user = none;
  group = none;
  logfile = none;
  tmpfs_sz = tmpfs_options (4 * megabyte);
}

-- RLIMIT_NPROC is 6, RLIMIT_STACK is 3.
unfoldable pub init_conf : Action Parse
init_conf = do
  nproc ← cmdline_parse_r_limit 6 (bytes "def") 1
  stack ← cmdline_parse_r_limit 3 (bytes "def") 1
  uid ← sys getuid
  gid ← sys getgid
  uid' ← sys getuid
  gid' ← sys getgid
  pure (
      start_of
        (defaults nproc stack (result_of uid) (result_of gid) (result_of uid') (result_of gid')))

abbrev pub root_flags : NsjConf → ℕ → ℕ
root_flags conf flags = if conf.is_root_rw then flags else flags + ms_rdonly

abbrev pub root_mount : NsjConf → MountPt
root_mount conf = elim conf.chroot [
  | some dir ↦ record {
    src = some dir;
    dst = bytes "/";
    fs_type = [];
    options = [];
    flags = root_flags conf ms_bind_rec;
  }
  | none ↦ record {
    src = none;
    dst = bytes "/";
    fs_type = bytes "tmpfs";
    options = [];
    flags = root_flags conf 0;
  }
]

abbrev pub proc_mount : MountPt
proc_mount = record {
  src = none;
  dst = bytes "/proc";
  fs_type = bytes "proc";
  options = [];
  flags = 0;
}

-- What follows the loop puts /proc and then the root in front of the mounts.
unfoldable pub add_mounts : NsjConf → NsjConf
add_mounts conf = record conf {
  mountpts =
      root_mount conf ∷ (if conf.mount_proc then proc_mount ∷ conf.mountpts else conf.mountpts);
}

-- The tests that end the function.
abbrev pub take_argv : List CString → Bool → NsjConf → Action (Bool × NsjConf)
take_argv argv ok conf =
    if not ok
    then pure (false, conf)
    else elim argv [ [] ↦ usage | arg ∷ args ↦ pure (true, record conf { argv = arg ∷ args }) ]

unfoldable pub finish_parse : List CString → Parse → Action (Bool × NsjConf)
unfolding add_mounts
finish_parse argv p =
    let conf = add_mounts p.conf in
    log_init_log_file conf p.logfile conf.verbose >>= λ l.
    if not l.0
    then pure (false, conf)
    else (cmdline_parse_uid conf p.user >>= λ u.
        if not u.0 then pure u else (cmdline_parse_gid u.1 p.group >>= λ g. take_argv argv g.0 g.1))

unfoldable pub cmdline_parse : List Opt → List CString → Action (Bool × NsjConf)
cmdline_parse opts argv = (init_conf >>= apply_options opts) >>= finish_parse argv
