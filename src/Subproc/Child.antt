-- ===== src/Subproc/Child.antt =====
-- subproc.c: a new process, as the child and as its parent. `fuel` bounds each loop.
mod Tests
pub mod Exec
pub mod Kept
pub mod Guarded
pub mod Added
pub mod Limit
pub mod Sealed
pub mod Told
use Prim.Native.Nat.{bit_or}
use nsjail.Common.{
  ℕ, zero, suc, Bool, true, false, ◌&&◌, List, [], ◌∷◌, get_or, ◌==◌, if◌then◌else◌,
}
use nsjail.Common.Int.{ℤ, pos, negsuc, eq_ℤ}
use nsjail.Os.{
  CString, getpid, clearenv, putenv, execv, unshare, socketpair, clone, close, Reply, fail, done,
  replaced, Action, pure, exit, sys, failed, out_of, ◌>>=◌, ◌>>◌, ◌and_then◌,
}
use nsjail.Conf.{NsjConf, is_execve}
use nsjail.Util.{util_read_from_fd, util_write_to_fd}
use nsjail.Net.{net_limit_conns, net_conn_to_text}
use nsjail.Cgroup.{cgroup_init_ns_from_parent}
use nsjail.Net.Parent.{net_init_ns_from_parent}
use nsjail.User.{user_init_ns_from_parent}
use nsjail.Contain.{contain_setup_fd, contain_contain}
use nsjail.Sandbox.{sandbox_apply}
use nsjail.Subproc.{int_of, subproc_add}

-- `if (step() == false) exit(1);`
abbrev pub or_exit : Action Bool → Action (Unit {0})
or_exit m = do ok ← m; if ok then pure tt else exit 1

-- `subprocDoneChar`
abbrev pub done_char : ℕ
done_char = b'D'

await_parent : ℕ → ℤ → Action (Unit {0})
await_parent fuel pipefd = do
  s ← util_read_from_fd fuel pipefd 1
  if s.0 == 1 && get_or s.1 0 0 == done_char then pure tt else exit 1

init_self : ℕ → NsjConf → Action (Unit {0})
init_self fuel conf = do
  pid ← sys getpid
  or_exit (user_init_ns_from_parent fuel conf (int_of pid))
  pid' ← sys getpid
  or_exit (cgroup_init_ns_from_parent fuel conf (int_of pid'))

-- By the process itself if it has no parent to do it, which a `pipefd` of -1 says.
unfoldable pub init_namespaces : ℕ → NsjConf → ℤ → Action (Unit {0})
unfolding init_self await_parent
init_namespaces fuel conf pipefd =
    if eq_ℤ pipefd (negsuc 0) then init_self fuel conf else await_parent fuel pipefd

unfoldable pub put_envs : List CString → Action (Unit {0})
put_envs [] = pure tt
put_envs (e ∷ envs) = sys (putenv e) >> put_envs envs

unfoldable pub set_env : NsjConf → Action (Unit {0})
set_env conf = (if conf.keep_env then pure tt else sys clearenv >> pure tt) >> put_envs conf.envs

-- An `execv` that succeeds puts another program in the process's place.
execute : List CString → Action (Unit {0})
execute argv = do r ← sys (execv argv); elim r [ fail e ↦ exit 1 | done n out ↦ λ w. (replaced, w) ]

abbrev when : Bool → ℕ → ℕ
when b flag = if b then flag else 0

unfoldable pub clone_flags : NsjConf → ℕ
clone_flags conf = bit_or (when conf.clone_newnet 0x4000_0000) (
    bit_or (when conf.clone_newuser 0x1000_0000) (
      bit_or (when conf.clone_newns 0x0002_0000) (
        bit_or (when conf.clone_newpid 0x2000_0000) (
          bit_or (when conf.clone_newipc 0x0800_0000) (
            bit_or (when conf.clone_newuts 0x0400_0000) (when conf.clone_newcgroup 0x0200_0000))))))

-- `subprocNewProc` up to its `execv`.
unfoldable pub prepare_proc : ℕ → NsjConf → ℤ → ℤ → ℤ → ℤ → Action (Unit {0})
prepare_proc fuel conf fd_in fd_out fd_err pipefd =
    or_exit (contain_setup_fd conf fd_in fd_out fd_err)
    >> (init_namespaces fuel conf pipefd
        >> (or_exit (contain_contain fuel conf) >> (set_env conf >> or_exit (sandbox_apply conf))))

unfoldable pub subproc_new_proc : ℕ → NsjConf → ℤ → ℤ → ℤ → ℤ → Action (Unit {0})
unfolding execute
subproc_new_proc fuel conf fd_in fd_out fd_err pipefd =
    prepare_proc fuel conf fd_in fd_out fd_err pipefd >> execute conf.argv

pub subproc_init_parent : ℕ → NsjConf → ℤ → ℤ → Action Bool
subproc_init_parent fuel conf pid pipefd =
    net_init_ns_from_parent fuel conf pid
    and_then (or_exit (cgroup_init_ns_from_parent fuel conf pid)
        >> (user_init_ns_from_parent fuel conf pid
            and_then util_write_to_fd fuel pipefd (done_char ∷ [])))

-- After `clone`, in the child and in the parent.
cloned : ℕ → NsjConf → ℤ → ℤ → ℤ → ℤ → ℤ → Reply → Action NsjConf
cloned fuel conf fd_in fd_out fd_err child_fd parent_fd (fail e) =
    sys (close child_fd) >> sys (close parent_fd) >> pure conf
cloned fuel conf fd_in fd_out fd_err child_fd parent_fd (done zero out) =
    sys (close parent_fd) >> subproc_new_proc fuel conf fd_in fd_out fd_err child_fd >> pure conf
cloned fuel conf fd_in fd_out fd_err child_fd parent_fd (done (suc n) out) = do
  sys (close child_fd)
  conf' ← subproc_add conf (pos (suc n)) fd_in
  ok ← subproc_init_parent fuel conf' (pos (suc n)) parent_fd
  sys (close parent_fd)
  (if ok then net_conn_to_text fd_in true >> pure conf' else pure conf')

spawn : ℕ → NsjConf → ℤ → ℤ → ℤ → Reply → Action NsjConf
unfolding cloned
spawn fuel conf fd_in fd_out fd_err (fail e) = pure conf
spawn fuel conf fd_in fd_out fd_err (done n sv) =
    -- SIGCHLD is 17.
    sys (clone (bit_or (clone_flags conf) 17))
    >>= cloned fuel conf fd_in fd_out fd_err (pos (get_or sv 0 0)) (pos (get_or sv 1 0))

enter : ℕ → NsjConf → ℤ → ℤ → ℤ → Action (Unit {0})
enter fuel conf fd_in fd_out fd_err =
    if is_execve conf.mode
    then or_exit (sys (unshare (clone_flags conf)) >>= λ r. pure (if failed r then false else true))
      >> subproc_new_proc fuel conf fd_in fd_out fd_err (negsuc 0)
    else pure tt

unfoldable pub subproc_run_child : ℕ → NsjConf → ℤ → ℤ → ℤ → Action NsjConf
unfolding spawn enter
subproc_run_child fuel conf fd_in fd_out fd_err = do
  ok ← net_limit_conns conf fd_in
  if ok
      then (enter fuel conf fd_in fd_out fd_err
          >> (sys socketpair >>= spawn fuel conf fd_in fd_out fd_err))
      else pure conf
