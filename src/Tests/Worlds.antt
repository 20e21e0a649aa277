-- ===== src/Tests/Worlds.antt =====
-- A configuration, children and kernels for the tests.
use nsjail.Common.{ℕ, ◌+◌, true, false, none, [], ◌∷◌}
use nsjail.Common.Int.{pos}
use nsjail.Common.Text.{bytes}
use nsjail.Os.{Kernel, World, done}
use nsjail.Conf.{PidElem, NsjConf, standalone_once}

-- A child with its start and the first byte of its peer's address.
abbrev pub child : ℕ → ℕ → ℕ → PidElem
child pid start byte = record {
  pid = pos pid;
  start = pos start;
  remote_addr = byte ∷ 7 ∷ [];
  pid_syscall_fd = pos (pid + 100);
}

-- A sandboxed jail with two children.
abbrev pub conf : NsjConf
conf = record {
  hostname = bytes "NSJAIL";
  cwd = bytes "/";
  argv = bytes "/bin/sh" ∷ [];
  port = pos 0;
  bindhost = bytes "::";
  daemonize = false;
  tlimit = pos 10;
  apply_sandbox = true;
  pivot_root_only = false;
  verbose = false;
  keep_env = false;
  keep_caps = false;
  disable_no_new_privs = false;
  rl_as = 0x1000_0000;
  rl_core = 0;
  rl_cpu = 600;
  rl_fsize = 0x10_0000;
  rl_nofile = 32;
  rl_nproc = 1024;
  rl_stack = 0x80_0000;
  personality = 0;
  clone_newnet = true;
  clone_newuser = true;
  clone_newns = true;
  clone_newpid = true;
  clone_newipc = true;
  clone_newuts = true;
  clone_newcgroup = false;
  mode = standalone_once;
  chroot = none;
  is_root_rw = false;
  is_silent = false;
  skip_setsid = false;
  outside_uid = 1000;
  outside_gid = 1000;
  inside_uid = 99;
  inside_gid = 100;
  max_conns_per_ip = 2;
  tmpfs_size = 0x40_0000;
  mount_proc = true;
  iface_no_lo = false;
  iface = none;
  iface_vs_ip = bytes "0.0.0.0";
  iface_vs_nm = bytes "255.255.255.0";
  iface_vs_gw = bytes "0.0.0.0";
  cgroup_mem_mount = bytes "/sys/fs/cgroup/memory";
  cgroup_mem_parent = bytes "NSJAIL";
  cgroup_mem_max = 0;
  envs = [];
  pids = child 21 5 1 ∷ child 22 15 2 ∷ [];
  mountpts = [];
  open_fds = pos 0 ∷ pos 1 ∷ pos 2 ∷ [];
  uid_mappings = [];
  gid_mappings = [];
}

-- Every call succeeds and returns 0.
abbrev pub willing : Kernel
willing log c = done 0 []

abbrev pub start : World
start = record { kernel = willing; log = [] }
