-- ===== src/Os.antt =====
-- The C library and the kernel, which nsjail calls and does not implement: a parameter that
-- answers each call as it likes, from the calls that it has seen. A function of nsjail is an
-- action on the world; the world keeps every call with its answer, the last one first.
-- TEMP_FAILURE_RETRY(e) is one call, whose answer is the one that ends the macro's loop.
pub mod Laws
pub mod Status
pub mod Wait
pub mod Descriptors
pub mod Returns
pub mod Ensures
pub mod Done
pub mod Under
pub mod Quiet
pub mod Guarded
use nsjail.Common.{
  ℕ, Bool, true, false, not, Option, none, some, List, [], ◌∷◌, ◌==◌, if◌then◌else◌,
}
use nsjail.Common.Int.{ℤ}
use nsjail.Seccomp.Insn.{SockFilter}

-- C strings as lists of their bytes.
abbrev pub CString : Type 0
CString = List ℕ

pub data Syscall : Type 0 where
  prctl : ℕ → ℕ → Syscall
  set_seccomp : List SockFilter → Syscall
  setgroups_none capset_none setpriority setsid : Syscall
  setresgid setresuid personality : ℕ → Syscall
  prlimit : ℕ → ℕ → Syscall
  sethostname : CString → Syscall
  fcntl_getfd : ℤ → Syscall
  fcntl_setfd : ℤ → ℕ → Syscall
  strtoul : CString → ℕ → Syscall
  opendir_fds readdir closedir : Syscall
  open_file : CString → ℕ → Syscall
  close : ℤ → Syscall
  dup2 : ℤ → ℤ → Syscall
  read : ℤ → ℕ → Syscall
  write : ℤ → List ℕ → Syscall
  unlink rmdir chroot chdir : CString → Syscall
  chroot_null : Syscall
  mkdir : CString → ℕ → Syscall
  umount2 : CString → ℕ → Syscall
  pivot_root : CString → CString → Syscall
  mount : Option CString → CString → Option CString → ℕ → Option CString → Syscall
  stat statvfs : CString → Syscall
  time pause getpid geteuid waitid : Syscall
  wait4 : ℤ → Syscall
  kill : ℤ → ℕ → Syscall
  clone unshare : ℕ → Syscall
  socketpair clearenv indeterminate : Syscall
  putenv : CString → Syscall
  execv : List CString → Syscall
  execve : CString → List CString → Syscall
  system : CString → Syscall
  getrlimit : ℕ → Syscall
  strtoull strtol getpwnam getgrnam : CString → Syscall
  getuid getgid daemon setitimer signals fork : Syscall
  isatty : ℤ → Syscall
  sigaction : ℕ → Syscall
  mkdirat : ℤ → CString → ℕ → Syscall
  openat : ℤ → CString → ℕ → Syscall
  inet_pton : ℕ → CString → Syscall
  socket : ℕ → Syscall
  set_reuseaddr : ℤ → Syscall
  bind : ℤ → List ℕ → ℕ → Syscall
  listen : ℤ → ℕ → Syscall
  get_iface_flags : ℤ → CString → Syscall
  set_iface_flags : ℤ → CString → ℕ → Syscall
  set_iface_addr set_iface_netmask add_route : ℤ → CString → List ℕ → Syscall
  getsockopt_type getpeername getsockname accept set_cork : ℤ → Syscall
  nl_socket_alloc rtnl_link_macvlan_alloc : Syscall
  nl_connect nl_socket_free rtnl_link_alloc_cache rtnl_link_put nl_cache_free : ℕ → Syscall
  rtnl_link_name2i rtnl_link_set_name : ℕ → CString → Syscall
  rtnl_link_set_link rtnl_link_add : ℕ → ℕ → Syscall
  rtnl_link_set_ns_pid : ℕ → ℤ → Syscall

-- -1 with `errno`, or a value that is not negative with what the call has written to its
-- arguments.
pub data Reply : Type 0 where
  fail : ℕ → Reply
  done : ℕ → List ℕ → Reply

abbrev pub Event : Type 0
Event = Syscall × Reply

abbrev pub Kernel : Type 0
Kernel = List Event → Syscall → Reply

pub record World : Type 0 where
  pub kernel : Kernel
  pub log : List Event

-- How an action ends: with a value, by the exit of the process, by an `execv` that has put
-- another program in its place, in an endless wait, or not within the fuel given.
pub data Outcome (A : Type 0) : Type 0 where
  value : A → Outcome A
  exited : ℕ → Outcome A
  replaced : Outcome A
  endless : Outcome A
  unfinished : Outcome A

abbrev pub Action : Type 0 → Type 0
Action A = World → Outcome A × World

module _ {A : Type 0} where
  abbrev pub pure : A → Action A
  pure a w = (value a, w)

  abbrev pub exit : ℕ → Action A
  exit code w = (exited code, w)

  abbrev pub wait_forever : Action A
  wait_forever w = (endless, w)

  abbrev pub out_of_fuel : Action A
  out_of_fuel w = (unfinished, w)

infixl 5 ◌>>=◌ ◌>>◌
abbrev pub ◌>>=◌ : {A B : Type 0} → Action A → (A → Action B) → Action B
◌>>=◌ m f w =
    let (r, w') = m w in
    elim r [
      | value a ↦ f a w'
      | exited code ↦ (exited code, w')
      | replaced ↦ (replaced, w')
      | endless ↦ (endless, w')
      | unfinished ↦ (unfinished, w')
    ]

abbrev pub ◌>>◌ : {A B : Type 0} → Action A → Action B → Action B
m >> k = m >>= λ _. k

abbrev pub sys : Syscall → Action Reply
sys c w = let r = w.kernel w.log c in (value r, record w { log = (c, r) ∷ w.log })

abbrev pub failed : Reply → Bool
failed (fail e) = true
failed (done n out) = false

abbrev pub errno_of : Reply → ℕ
errno_of (fail e) = e
errno_of (done n out) = 0

abbrev pub result_of : Reply → ℕ
result_of (fail e) = 0
result_of (done n out) = n

abbrev pub out_of : Reply → List ℕ
out_of (fail e) = []
out_of (done n out) = out

abbrev pub eexist : ℕ
eexist = 17

-- `mkdir(...) == -1 && errno != EEXIST` is a failure.
abbrev pub made : Reply → Bool
made r = if failed r then errno_of r == eexist else true

-- `if (call == -1) return false;`
abbrev pub succeeds : Syscall → Action Bool
succeeds c = do r ← sys c; pure (not (failed r))

-- `if (step() == false) return false;` in front of the rest.
infixr 4 ◌and_then◌
abbrev pub ◌and_then◌ : Action Bool → Action Bool → Action Bool
m and_then n = do ok ← m; if ok then n else pure false
