-- ===== src/Contain/Whole.antt =====
-- contain.c: `containContain` as a whole.
use nsjail.Common.{ℕ, zero, suc, ◌+◌, ◌≡◌, refl, true, false, Bool, some, arith, ◌==◌}
use nsjail.Common.Int.{ℤ, pos}
use nsjail.Os.{
  CString, value, World, Reply, fail, done, prctl, setpriority, setsid, personality, fcntl_getfd,
  fcntl_setfd, strtoul, opendir_fds, readdir, closedir, Action, pure, sys, succeeds, ◌>>◌,
  ◌and_then◌,
}
use nsjail.Mount.{mount_init_ns}
use nsjail.Net.Iface.{net_init_ns_from_child}
use nsjail.Conf.{NsjConf}
use nsjail.Contain.{
  contain_drop_privs, contain_set_limits, contain_prepare_env, is_einval, is_dots, close_false,
  coe_entry, mark_fd, numbered_fd, naive_loop, proc_loop, contain_make_fds_coe_naive,
  contain_make_fds_coe_proc, contain_make_fds_coe, contain_contain, pid_init_ns, uts_init_ns,
  cgroup_init_ns, new_flags, fd_of,
}
use nsjail.Contain.State.{Proc, state, HasDropped, IsLimited, IsConfined}
use nsjail.Contain.State.Rules.{
  Keeps-OnTrue, Keeps, Keeps-sys, Keeps-pure, Keeps-bind, Keeps-if, Keeps-succeeds, Keeps-and_then,
  Ensures, OnTrue, Always, Ensures-bind, Ensures-pure, Ensures-if, Ensures-sys, Ensures-and_then,
  Ensures-succeeds,
}
use nsjail.Contain.Privs.{Any, contain_drop_privs-HasDropped, contain_set_limits-IsLimited}

module _ (conf : NsjConf) (p : Proc) where
  same_dropped : HasDropped conf p → HasDropped conf (record p { pdeathsig = some 9 })
  same_dropped h = record { gid = h.gid; uid = h.uid; caps = h.caps }

  same-IsLimited : IsLimited conf p → IsLimited conf (record p { pdeathsig = some 9 })
  same-IsLimited h = record {
    as_ = h.as_;
    core = h.core;
    cpu = h.cpu;
    fsize = h.fsize;
    nofile = h.nofile;
    nproc = h.nproc;
    stack = h.stack;
  }

contain_prepare_env-IsConfined :
    (conf : NsjConf)
    → Ensures
        (λ p. HasDropped conf p × IsLimited conf p)
        (contain_prepare_env conf)
        (OnTrue (IsConfined conf))
unfolding contain_prepare_env
contain_prepare_env-IsConfined conf =
    Ensures-and_then (succeeds (prctl 1 9)) _
      (Ensures-succeeds {Q = IsConfined conf} (prctl 1 9) (λ n out p h. record {
        dropped = same_dropped conf p h.0;
        limited = same-IsLimited conf p h.1;
        pdeathsig = refl;
      }))
      (Ensures-and_then _ _
        (Ensures-if (conf.personality == 0) _ _
          (λ _. Ensures-pure {Q = OnTrue (IsConfined conf)} true (λ p h _. h))
          (λ _. Ensures-succeeds (personality conf.personality) (λ n out p h. h)))
        (Ensures-bind (sys setpriority) _
          (Ensures-sys {Q = Always (IsConfined conf)} setpriority (λ r p h. h))
          (λ _.
            Ensures-if conf.skip_setsid _ _ (λ _. Ensures-pure true (λ p h _. h))
              (λ _.
                Ensures-bind (sys setsid) _
                  (Ensures-sys {Q = Always (IsConfined conf)} setsid (λ r p h. h))
                  (λ _. Ensures-pure true (λ p h _. h))))))

-- The calls on descriptors leave the process as it is.
module _ (conf : NsjConf) {P : Proc → Type 0} where
  close_false-Keeps : Keeps P close_false
  close_false-Keeps =
      Keeps-bind (sys closedir) _ (Keeps-sys closedir (λ r p h. h)) (λ _. Keeps-pure false)

  naive_loop-Keeps : (n fd : ℕ) → Keeps P (naive_loop conf n fd)
  unfolding naive_loop
  naive_loop-Keeps zero fd = Keeps-pure true
  naive_loop-Keeps (suc n) fd =
      Keeps-bind (sys (fcntl_getfd (pos fd))) _ (Keeps-sys (fcntl_getfd (pos fd)) (λ r p h. h))
        (λ r. go r (naive_loop-Keeps n (fd + 1)))
    where
      go :
          (r : Reply)
          → Keeps P (naive_loop conf n (fd + 1))
          → Keeps P (elim r [
            | fail e ↦ naive_loop conf n (fd + 1)
            | done flags out ↦
                succeeds (fcntl_setfd (pos fd) (new_flags conf (pos fd) flags))
                and_then naive_loop conf n (fd + 1)
          ])
      go (fail e) ih = ih
      go (done flags out) ih =
          Keeps-and_then (succeeds _) _ (Keeps-succeeds (fcntl_setfd (pos fd) _) (λ r p h. h)) ih

  mark_fd-Keeps : (fd : ℤ) (r : Reply) → Keeps P (mark_fd conf fd r)
  unfolding mark_fd
  mark_fd-Keeps fd (fail e) = close_false-Keeps
  mark_fd-Keeps fd (done flags out) =
      Keeps-bind (succeeds _) _
        (Keeps-succeeds (fcntl_setfd fd (new_flags conf fd flags)) (λ r p h. h))
        (λ ok. Keeps-if ok _ _ (Keeps-pure true) close_false-Keeps)

  numbered_fd-Keeps : (r : Reply) → Keeps P (numbered_fd conf r)
  unfolding numbered_fd
  numbered_fd-Keeps r = Keeps-if (is_einval r) _ _ (Keeps-pure true) (
      Keeps-bind (sys (fcntl_getfd (fd_of r))) _ (Keeps-sys (fcntl_getfd (fd_of r)) (λ r p h. h))
        (mark_fd-Keeps (fd_of r)))

  coe_entry-Keeps : (name : CString) → Keeps P (coe_entry conf name)
  unfolding coe_entry
  coe_entry-Keeps name = Keeps-if (is_dots name) _ _ (Keeps-pure true) (
      Keeps-bind (sys (strtoul name 10)) _ (Keeps-sys (strtoul name 10) (λ r p h. h))
        numbered_fd-Keeps)

  proc_loop-Keeps : (fuel : ℕ) → Keeps P (proc_loop fuel conf)
  unfolding proc_loop
  proc_loop-Keeps zero = record { at = λ w p b h. absurd (ground arith) }
  proc_loop-Keeps (suc fuel) =
      Keeps-bind (sys readdir) _ (Keeps-sys readdir (λ r p h. h)) (λ r. go r (proc_loop-Keeps fuel))
    where
      go :
          (r : Reply)
          → Keeps P (proc_loop fuel conf)
          → Keeps P (elim r [
            | fail e ↦ close_false
            | done zero out ↦ sys closedir >> pure true
            | done (suc n) name ↦ coe_entry conf name and_then proc_loop fuel conf
          ])
      go (fail e) ih = close_false-Keeps
      go (done zero out) ih =
          Keeps-bind (sys closedir) _ (Keeps-sys closedir (λ r p h. h)) (λ _. Keeps-pure true)
      go (done (suc n) name) ih = Keeps-and_then (coe_entry conf name) _ (coe_entry-Keeps name) ih

  contain_make_fds_coe-Keeps : (fuel : ℕ) → Keeps P (contain_make_fds_coe fuel conf)
  unfolding contain_make_fds_coe contain_make_fds_coe_proc contain_make_fds_coe_naive
  contain_make_fds_coe-Keeps fuel =
      Keeps-bind (contain_make_fds_coe_proc fuel conf) _
        (Keeps-bind (sys opendir_fds) _ (Keeps-sys opendir_fds (λ r p h. h)) opened)
        (λ ok. Keeps-if ok _ _ (Keeps-pure true) (naive_loop-Keeps 1024 0))
    where
      opened :
          (r : Reply) → Keeps P (elim r [ fail e ↦ pure false | done n out ↦ proc_loop fuel conf ])
      opened (fail e) = Keeps-pure false
      opened (done n out) = proc_loop-Keeps fuel

any : (m : Action Bool) → Ensures Any m (OnTrue Any)
any m = record { at = λ w p b e t. tt }

-- From the privileges on.
confine : NsjConf → ℕ → Action Bool
confine conf fuel =
    contain_drop_privs conf
    and_then contain_set_limits conf
    and_then contain_prepare_env conf
    and_then contain_make_fds_coe fuel conf

confine-IsConfined :
    (conf : NsjConf) (fuel : ℕ) → Ensures Any (confine conf fuel) (OnTrue (IsConfined conf))
unfolding confine
confine-IsConfined conf fuel =
    Ensures-and_then (contain_drop_privs conf) _ (contain_drop_privs-HasDropped conf) (
      Ensures-and_then (contain_set_limits conf) _ (contain_set_limits-IsLimited conf) (
        Ensures-and_then (contain_prepare_env conf) _ (contain_prepare_env-IsConfined conf)
          (Keeps-OnTrue (contain_make_fds_coe fuel conf) (contain_make_fds_coe-Keeps conf fuel))))

-- If `containContain` returns true, whatever the kernel has answered, the process is confined: it
-- has the group and the user of the jail, no capabilities unless they are to be kept, the seven
-- limits, and it dies with its parent.
pub contain_contain-IsConfined :
    (fuel : ℕ) (conf : NsjConf) (w : World)
    → (contain_contain fuel conf w).0 ≡ value true
    → IsConfined conf (state (contain_contain fuel conf w).1.log)
unfolding contain_contain confine
contain_contain-IsConfined fuel conf w h =
    (Ensures-and_then {Q = Any} (pid_init_ns conf) _ (any _) (
        Ensures-and_then {Q = Any} (mount_init_ns fuel conf) _ (any _) (
          Ensures-and_then {Q = Any} (net_init_ns_from_child conf) _ (any _) (
            Ensures-and_then {Q = Any} (uts_init_ns conf) _ (any _) (
              Ensures-and_then {Q = Any} cgroup_init_ns _ (any _)
                (confine-IsConfined conf fuel)))))).at
      w tt true h refl
