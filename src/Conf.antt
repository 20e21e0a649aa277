-- ===== src/Conf.antt =====
-- common.h: `struct nsjconf_t` and the records of its lists. A list of <sys/queue.h> is a list,
-- from its head; a `char *` that may be NULL is an option.
use nsjail.Common.{ℕ, Bool, true, false, Option, List}
use nsjail.Common.Int.{ℤ}
use nsjail.Os.{CString}

pub data NsMode : Type 0 where
  listen_tcp standalone_once standalone_execve standalone_rerun : NsMode

abbrev pub is_execve : NsMode → Bool
is_execve standalone_execve = true
is_execve _ = false

abbrev pub is_listen_tcp : NsMode → Bool
is_listen_tcp listen_tcp = true
is_listen_tcp _ = false

pub record PidElem : Type 0 where
  pub pid : ℤ
  pub start : ℤ
  pub remote_addr : List ℕ
  pub pid_syscall_fd : ℤ

pub record MountPt : Type 0 where
  pub src : Option CString
  pub dst : CString
  pub fs_type : CString
  pub options : CString
  pub flags : ℕ

pub record Mapping : Type 0 where
  pub inside_id : CString
  pub outside_id : CString
  pub count : CString

pub record NsjConf : Type 0 where
  pub hostname : CString
  pub cwd : CString
  pub argv : List CString
  pub port : ℤ
  pub bindhost : CString
  pub daemonize : Bool
  pub tlimit : ℤ
  pub apply_sandbox : Bool
  pub pivot_root_only : Bool
  pub verbose : Bool
  pub keep_env : Bool
  pub keep_caps : Bool
  pub disable_no_new_privs : Bool
  pub rl_as : ℕ
  pub rl_core : ℕ
  pub rl_cpu : ℕ
  pub rl_fsize : ℕ
  pub rl_nofile : ℕ
  pub rl_nproc : ℕ
  pub rl_stack : ℕ
  pub personality : ℕ
  pub clone_newnet : Bool
  pub clone_newuser : Bool
  pub clone_newns : Bool
  pub clone_newpid : Bool
  pub clone_newipc : Bool
  pub clone_newuts : Bool
  pub clone_newcgroup : Bool
  pub mode : NsMode
  pub chroot : Option CString
  pub is_root_rw : Bool
  pub is_silent : Bool
  pub skip_setsid : Bool
  pub outside_uid : ℕ
  pub outside_gid : ℕ
  pub inside_uid : ℕ
  pub inside_gid : ℕ
  pub max_conns_per_ip : ℕ
  pub tmpfs_size : ℕ
  pub mount_proc : Bool
  pub iface_no_lo : Bool
  pub iface : Option CString
  pub iface_vs_ip : CString
  pub iface_vs_nm : CString
  pub iface_vs_gw : CString
  pub cgroup_mem_mount : CString
  pub cgroup_mem_parent : CString
  pub cgroup_mem_max : ℕ
  pub envs : List CString
  pub pids : List PidElem
  pub mountpts : List MountPt
  pub open_fds : List ℤ
  pub uid_mappings : List Mapping
  pub gid_mappings : List Mapping
