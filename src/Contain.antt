-- ===== src/Contain.antt =====
-- contain.c, pid.c, uts.c: what a new process does to itself before it runs the program.
mod Tests
pub mod State
pub mod Privs
pub mod Whole
pub mod Descriptors
pub mod Listed
pub mod Settled
pub mod Passed
pub mod Kept
use nsjail.Common.{
  ℕ, zero, suc, ◌+◌, ◌-◌, ◌%◌, ◌^◌, Bool, true, false, not, ◌&&◌, ◌||◌, List, [], ◌∷◌, ltb, ◌==◌,
  if◌then◌else◌,
}
use nsjail.Common.Int.{ℤ, pos, negsuc, eq_ℤ, sub_ℕ}
use nsjail.Common.Text.{bytes}
use nsjail.Os.{
  CString, Syscall, prctl, setgroups_none, capset_none, setpriority, setsid, setresgid, setresuid,
  personality, prlimit, sethostname, fcntl_getfd, fcntl_setfd, strtoul, opendir_fds, readdir,
  closedir, clone, pause, open_file, dup2, Reply, fail, done, Action, pure, wait_forever,
  out_of_fuel, sys, succeeds, ◌>>=◌, ◌>>◌, ◌and_then◌,
}
use nsjail.Mount.{mount_init_ns}
use nsjail.Net.Iface.{net_init_ns_from_child}
use nsjail.Conf.{NsjConf, is_execve, is_listen_tcp}

-- pid.c. The child of the clone waits for ever as the namespace's init.
pid_cloned : Reply → Action Bool
pid_cloned (fail e) = pure false
pid_cloned (done (suc pid) out) = pure true
pid_cloned (done zero out) = sys (prctl 1 9) >> sys pause >> wait_forever

-- CLONE_FS is 0x200.
unfoldable pub pid_init_ns : NsjConf → Action Bool
unfolding pid_cloned
pid_init_ns conf = if is_execve conf.mode then (sys (clone 0x200) >>= pid_cloned) else pure true

-- uts.c
unfoldable pub uts_init_ns : NsjConf → Action Bool
uts_init_ns conf = if conf.clone_newuts then succeeds (sethostname conf.hostname) else pure true

unfoldable pub cgroup_init_ns : Action Bool
cgroup_init_ns = pure true

-- An answer -1 with EINVAL, which is 22.
abbrev pub is_einval : Reply → Bool
is_einval (fail e) = e == 22
is_einval (done n out) = false

-- The loop over the capabilities, with `n` rounds left. PR_CAPBSET_DROP is 24.
unfoldable pub drop_bounding : ℕ → ℕ → Action (Unit {0})
drop_bounding zero i = pure tt
drop_bounding (suc n) i = do
  r ← sys (prctl 24 i)
  elim (is_einval r) [ true ↦ pure tt | false ↦ drop_bounding n (i + 1) ]

-- PR_SET_KEEPCAPS is 8, PR_SET_NO_NEW_PRIVS is 38.
drop_caps : NsjConf → Action Bool
drop_caps conf =
    if conf.keep_caps
    then pure true
    else drop_bounding 128 0 >> (succeeds (prctl 8 0) and_then succeeds capset_none)

set_no_new_privs : NsjConf → Action Reply
set_no_new_privs conf = if conf.disable_no_new_privs then pure (done 0 []) else sys (prctl 38 1)

unfoldable pub contain_drop_privs : NsjConf → Action Bool
unfolding set_no_new_privs drop_caps
contain_drop_privs conf =
    sys setgroups_none
    >> (succeeds (setresgid conf.inside_gid)
        and_then succeeds (setresuid conf.inside_uid)
        and_then (set_no_new_privs conf >> drop_caps conf))

-- PR_SET_PDEATHSIG is 1, SIGKILL is 9.
unfoldable pub contain_prepare_env : NsjConf → Action Bool
contain_prepare_env conf =
    succeeds (prctl 1 9)
    and_then (if conf.personality == 0 then pure true else succeeds (personality conf.personality))
    and_then (sys setpriority >> (if conf.skip_setsid then pure true else sys setsid >> pure true))

-- The numbers of RLIMIT_AS, CORE, CPU, FSIZE, NOFILE, NPROC and STACK.
unfoldable pub contain_set_limits : NsjConf → Action Bool
contain_set_limits conf =
    succeeds (prlimit 9 conf.rl_as)
    and_then succeeds (prlimit 4 conf.rl_core)
    and_then succeeds (prlimit 0 conf.rl_cpu)
    and_then succeeds (prlimit 1 conf.rl_fsize)
    and_then succeeds (prlimit 7 conf.rl_nofile)
    and_then succeeds (prlimit 6 conf.rl_nproc)
    and_then succeeds (prlimit 3 conf.rl_stack)

unfoldable pub contain_pass_fd : List ℤ → ℤ → Bool
contain_pass_fd [] fd = false
contain_pass_fd (p ∷ fds) fd = eq_ℤ p fd || contain_pass_fd fds fd

-- `flags & ~FD_CLOEXEC` and `flags | FD_CLOEXEC`: the flag is the lowest bit.
abbrev pub new_flags : NsjConf → ℤ → ℕ → ℕ
new_flags conf fd flags =
    if contain_pass_fd conf.open_fds fd then flags - flags % 2 else flags - flags % 2 + 1

-- The loop of `containMakeFdsCOENaive`, with `n` descriptors left.
pub naive_loop : NsjConf → ℕ → ℕ → Action Bool
naive_loop conf zero fd = pure true
naive_loop conf (suc n) fd = do
  r ← sys (fcntl_getfd (pos fd))
  elim r [
    | fail e ↦ naive_loop conf n (fd + 1)
    | done flags out ↦
        succeeds (fcntl_setfd (pos fd) (new_flags conf (pos fd) flags))
        and_then naive_loop conf n (fd + 1)
  ]

pub contain_make_fds_coe_naive : NsjConf → Action Bool
contain_make_fds_coe_naive conf = naive_loop conf 1024 0

-- The `int` that an unsigned 64-bit value becomes.
abbrev pub to_int : ℕ → ℤ
to_int n = if ltb (n % 2 ^ 32) (2 ^ 31) then pos (n % 2 ^ 32) else sub_ℕ (n % 2 ^ 32) (2 ^ 32)

-- What `strtoul` has returned: ULONG_MAX where it failed.
abbrev pub fd_of : Reply → ℤ
fd_of (fail e) = to_int (2 ^ 64 - 1)
fd_of (done n out) = to_int n

abbrev pub is_dots : CString → Bool
is_dots (a ∷ []) = a == b'.'
is_dots (a ∷ b ∷ []) = a == b'.' && b == b'.'
is_dots _ = false

abbrev pub close_false : Action Bool
close_false = sys closedir >> pure false

-- With the flags of the descriptor, or without.
mark_fd : NsjConf → ℤ → Reply → Action Bool
mark_fd conf fd (fail e) = close_false
mark_fd conf fd (done flags out) = do
  ok ← succeeds (fcntl_setfd fd (new_flags conf fd flags))
  if ok then pure true else close_false

numbered_fd : NsjConf → Reply → Action Bool
unfolding mark_fd
numbered_fd conf r =
    if is_einval r then pure true else sys (fcntl_getfd (fd_of r)) >>= mark_fd conf (fd_of r)

-- One entry of /proc/self/fd: false ends the function, after the directory is closed.
pub coe_entry : NsjConf → CString → Action Bool
unfolding numbered_fd
coe_entry conf name = if is_dots name then pure true else sys (strtoul name 10) >>= numbered_fd conf

-- The loop of `containMakeFdsCOEProc`, in which `fuel` bounds the entries.
unfoldable pub proc_loop : ℕ → NsjConf → Action Bool
proc_loop zero conf = out_of_fuel
proc_loop (suc fuel) conf = do
  r ← sys readdir
  elim r [
    | fail e ↦ close_false
    | done zero out ↦ sys closedir >> pure true
    | done (suc n) name ↦ coe_entry conf name and_then proc_loop fuel conf
  ]

unfoldable pub contain_make_fds_coe_proc : ℕ → NsjConf → Action Bool
contain_make_fds_coe_proc fuel conf = do
  r ← sys opendir_fds
  elim r [ fail e ↦ pure false | done n out ↦ proc_loop fuel conf ]

unfoldable pub contain_make_fds_coe : ℕ → NsjConf → Action Bool
contain_make_fds_coe fuel conf = do
  ok ← contain_make_fds_coe_proc fuel conf
  if ok then pure true else contain_make_fds_coe_naive conf

-- Standard input, output and error.
dup_all : ℤ → ℤ → ℤ → Action Bool
dup_all fd_in fd_out fd_err =
    succeeds (dup2 fd_in (pos 0))
    and_then succeeds (dup2 fd_out (pos 1))
    and_then succeeds (dup2 fd_err (pos 2))

-- O_RDWR is 2.
unfoldable pub contain_setup_fd : NsjConf → ℤ → ℤ → ℤ → Action Bool
unfolding dup_all
contain_setup_fd conf fd_in fd_out fd_err =
    if is_listen_tcp conf.mode
    then dup_all fd_in fd_out fd_err
    else if not conf.is_silent
    then pure true
    else (do
      r ← sys (open_file (bytes "/dev/null") 2)
      elim r [ fail e ↦ pure false | done fd out ↦ dup_all (pos fd) (pos fd) (pos fd) ])

unfoldable pub contain_contain : ℕ → NsjConf → Action Bool
contain_contain fuel conf =
    pid_init_ns conf
    and_then mount_init_ns fuel conf
    and_then net_init_ns_from_child conf
    and_then uts_init_ns conf
    and_then cgroup_init_ns
    and_then contain_drop_privs conf
    and_then contain_set_limits conf
    and_then contain_prepare_env conf
    and_then contain_make_fds_coe fuel conf
