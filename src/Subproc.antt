-- ===== src/Subproc.antt =====
-- subproc.c: the list of children and how it follows their lives. The state is the configuration,
-- whose field `pids` an action returns anew.
mod Tests
pub mod Table
pub mod Shrink
pub mod Kept
pub mod Reap
pub mod Deadline
pub mod Child
use nsjail.Common.{
  ℕ, zero, suc, ◌+◌, ◌-◌, ◌/◌, ◌%◌, Bool, true, false, not, ◌&&◌, ◌||◌, Option, none, some, List,
  [], ◌∷◌, get_or, ◌==◌, if◌then◌else◌, ◌++◌,
}
use nsjail.Common.Int.{ℤ, pos, negsuc, eq_ℤ, leb_ℤ, ◌-ℤ◌}
use nsjail.Common.Text.{bytes, print_ℤ, snprintf, path_max}
use nsjail.Os.{
  open_file, close, time, waitid, wait4, kill, Reply, fail, done, Action, pure, sys, out_of_fuel,
  failed, out_of, ◌>>=◌, ◌>>◌,
}
pub use nsjail.Os.Status.{wifexited, wexitstatus, wifsignaled, wtermsig}
use nsjail.Conf.{NsjConf, PidElem}
use nsjail.Net.{net_conn_to_text, or_indeterminate}
use nsjail.Util.{util_read_from_fd}
use nsjail.Cgroup.{cgroup_finish_from_parent}

-- The `int` or `time_t` that a call returns.
abbrev pub int_of : Reply → ℤ
int_of (fail e) = negsuc 0
int_of (done n out) = pos n

-- O_RDONLY | O_CLOEXEC
abbrev pub o_rdonly_cloexec : ℕ
o_rdonly_cloexec = 0o2000000

pub subproc_add : NsjConf → ℤ → ℤ → Action NsjConf
subproc_add conf pid sock = do
  start ← sys time
  found ← net_conn_to_text sock true
  addr ← or_indeterminate found
  fd ← sys (
      open_file (snprintf path_max (bytes "/proc/" ++ (print_ℤ pid ++ bytes "/syscall")))
        o_rdonly_cloexec)
  pure (record conf {
    pids =
        record { pid = pid; start = int_of start; remote_addr = addr; pid_syscall_fd = int_of fd }
        ∷ conf.pids;
  })

-- The loop of `subprocGetPidElem`.
unfoldable pub get_pid_elem : ℤ → List PidElem → Option PidElem
get_pid_elem pid [] = none
get_pid_elem pid (p ∷ pids) = if eq_ℤ p.pid pid then some p else get_pid_elem pid pids

-- The list without the first element of that pid.
unfoldable pub without_pid : ℤ → List PidElem → List PidElem
without_pid pid [] = []
without_pid pid (p ∷ pids) = if eq_ℤ p.pid pid then pids else p ∷ without_pid pid pids

unfoldable pub close_elem : Option PidElem → Action (Unit {0})
close_elem none = pure tt
close_elem (some p) = sys (close p.pid_syscall_fd) >> pure tt

unfoldable pub subproc_remove : NsjConf → ℤ → Action NsjConf
unfolding close_elem
subproc_remove conf pid =
    close_elem (get_pid_elem pid conf.pids)
    >> pure (record conf { pids = without_pid pid conf.pids })

unfoldable pub count_pids : List PidElem → ℕ
count_pids [] = 0
count_pids (p ∷ pids) = count_pids pids + 1

unfoldable pub subproc_count : NsjConf → ℕ
unfolding count_pids
subproc_count conf = count_pids conf.pids

-- What `waitid` writes to a `siginfo_t`. A call that finds no child leaves `si_pid` at 0.
abbrev pub si_pid : Reply → ℕ
si_pid r = get_or (out_of r) 0 0

abbrev pub si_code : Reply → ℕ
si_code r = get_or (out_of r) 1 0

abbrev pub si_status : Reply → ℕ
si_status r = get_or (out_of r) 2 0

read_syscall : ℕ → Option PidElem → Action (Unit {0})
read_syscall fuel none = pure tt
read_syscall fuel (some p) = util_read_from_fd fuel p.pid_syscall_fd 4095 >> pure tt

-- What the report is made of is read; the report itself is only logged.
unfoldable pub subproc_seccomp_violation : ℕ → NsjConf → ℤ → Action (Unit {0})
unfolding read_syscall
subproc_seccomp_violation fuel conf pid = read_syscall fuel (get_pid_elem pid conf.pids)

-- CLD_KILLED is 2, SIGSYS is 31.
abbrev pub is_violation : Reply → Bool
is_violation r = si_code r == 2 && si_status r == 31

-- `rv`, from a child's wait status.
unfoldable pub rv_of_exit : ℕ → ℕ
rv_of_exit status =
    if wexitstatus status % 100 == 0 && not (wexitstatus status == 0)
    then 1
    else wexitstatus status % 100

unfoldable pub rv_of_signal : ℕ → ℕ
rv_of_signal status = 100 + wtermsig status

-- The configuration and `rv`, after a branch that removes the child and sets `rv` to `v`.
unfoldable pub remove_if : Bool → NsjConf → ℤ → ℕ → ℕ → Action (NsjConf × ℕ)
remove_if false conf pid v rv = pure (conf, rv)
remove_if true conf pid v rv = do conf' ← subproc_remove conf pid; pure (conf', v)

-- A child's wait status, with what the loop keeps: the configuration and `rv`.
unfoldable pub note_status : NsjConf → ℤ → ℕ → ℕ → Action (NsjConf × ℕ)
note_status conf pid status rv =
    remove_if (wifexited status) conf pid (rv_of_exit status) rv >>= λ s.
    remove_if (wifsignaled status) s.0 pid (rv_of_signal status) s.1

-- After `wait4`.
unfoldable pub collect : NsjConf → ℕ → ℕ → Reply → Action (NsjConf × ℕ)
unfolding note_status
collect conf pid rv (fail e) = pure (conf, rv)
collect conf pid rv (done n out) =
    if n == pid
    then cgroup_finish_from_parent conf (pos pid) >> note_status conf (pos pid) (get_or out 0 0) rv
    else pure (conf, rv)

-- One round of the loop, once `waitid` has reported `r`.
unfoldable pub reap_child : ℕ → NsjConf → ℕ → Reply → Action (NsjConf × ℕ)
unfolding collect subproc_seccomp_violation
reap_child fuel conf rv r =
    (if is_violation r then subproc_seccomp_violation fuel conf (pos (si_pid r)) else pure tt)
    >> (sys (wait4 (pos (si_pid r))) >>= collect conf (si_pid r) rv)

-- The loop of `subprocReap`; `fuel` bounds its rounds, and those of each read.
unfoldable pub reap_loop : ℕ → ℕ → NsjConf → ℕ → Action (NsjConf × ℕ)
reap_loop zero reads conf rv = out_of_fuel
reap_loop (suc fuel) reads conf rv = do
  r ← sys waitid
  elim (failed r || si_pid r == 0) [
    | true ↦ pure (conf, rv)
    | false ↦ do s ← reap_child reads conf rv r; reap_loop fuel reads s.0 s.1
  ]

abbrev pub overdue : NsjConf → ℤ → PidElem → Bool
overdue conf now p = leb_ℤ conf.tlimit (now -ℤ p.start)

-- The second loop. SIGCONT is 18, SIGKILL is 9.
unfoldable pub kill_overdue : NsjConf → ℤ → List PidElem → Action (Unit {0})
kill_overdue conf now [] = pure tt
kill_overdue conf now (p ∷ pids) =
    let rest = kill_overdue conf now pids in
    if eq_ℤ conf.tlimit (pos 0)
    then rest
    else (if overdue conf now p
        then sys (kill p.pid 18) >> sys (kill p.pid 9) >> pure tt
        else pure tt)
      >> rest

unfoldable pub subproc_reap : ℕ → ℕ → NsjConf → Action (NsjConf × ℕ)
subproc_reap fuel reads conf = do
  s ← reap_loop fuel reads conf 0
  now ← sys time
  kill_overdue s.0 (int_of now) s.0.pids
  pure s

-- The list is only logged, with the time.
unfoldable pub subproc_display : NsjConf → Action (Unit {0})
subproc_display conf = sys time >> pure tt

unfoldable pub subproc_kill_all : List PidElem → Action (Unit {0})
subproc_kill_all [] = pure tt
subproc_kill_all (p ∷ pids) = sys (kill p.pid 9) >> subproc_kill_all pids
