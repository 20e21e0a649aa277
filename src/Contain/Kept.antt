-- ===== src/Contain/Kept.antt =====
-- contain.c, uts.c: what a new process does to itself executes no program, and undoes no call that was made before.
use nsjail.Common.{ℕ, zero, suc, ◌+◌, Bool, true, false}
use nsjail.Common.Int.{ℤ, pos}
use nsjail.Os.{
  CString, Reply, fail, done, pure, sys, prctl, closedir, fcntl_getfd, fcntl_setfd, readdir,
  succeeds, ◌>>◌, ◌and_then◌,
}
use nsjail.Os.Quiet.{Quiet, Quiet-pure, Quiet-out_of_fuel, Quiet-bind, quiet_rules}
use nsjail.Conf.{NsjConf}
use nsjail.Mount.Kept.{mount_init_ns-Quiet}
use nsjail.Net.Iface.Kept.{net_init_ns_from_child-Quiet}
use nsjail.Contain.{
  pid_cloned, pid_init_ns, cgroup_init_ns, dup_all, contain_setup_fd, contain_contain, uts_init_ns,
  is_einval, drop_bounding, drop_caps, set_no_new_privs, contain_drop_privs, contain_prepare_env,
  contain_set_limits, new_flags, naive_loop, contain_make_fds_coe_naive, close_false, mark_fd,
  numbered_fd, coe_entry, proc_loop, contain_make_fds_coe_proc, contain_make_fds_coe,
}

pub uts_init_ns-Quiet : (conf : NsjConf) → Quiet (uts_init_ns conf)
unfolding uts_init_ns
uts_init_ns-Quiet conf = search quiet_rules

drop_bounding-Quiet : (n i : ℕ) → Quiet (drop_bounding n i)
unfolding drop_bounding
drop_bounding-Quiet zero i = Quiet-pure tt
drop_bounding-Quiet (suc n) i =
    Quiet-bind (sys (prctl 24 i)) _ (search quiet_rules)
      (λ r. unless (is_einval r) (drop_bounding-Quiet n (i + 1)))
  where
    unless :
        (b : Bool)
        → Quiet (drop_bounding n (i + 1))
        → Quiet (elim b [ true ↦ pure tt | false ↦ drop_bounding n (i + 1) ])
    unless true g = Quiet-pure tt
    unless false g = g

pub contain_drop_privs-Quiet : (conf : NsjConf) → Quiet (contain_drop_privs conf)
unfolding contain_drop_privs drop_caps set_no_new_privs
contain_drop_privs-Quiet conf = search (quiet_rules, drop_bounding-Quiet) depth 20

pub contain_set_limits-Quiet : (conf : NsjConf) → Quiet (contain_set_limits conf)
unfolding contain_set_limits
contain_set_limits-Quiet conf = search quiet_rules depth 20

pub contain_prepare_env-Quiet : (conf : NsjConf) → Quiet (contain_prepare_env conf)
unfolding contain_prepare_env
contain_prepare_env-Quiet conf = search quiet_rules depth 20

close_false-Quiet : Quiet close_false
close_false-Quiet = search quiet_rules

module _ (conf : NsjConf) where
  naive_loop-Quiet : (n fd : ℕ) → Quiet (naive_loop conf n fd)
  unfolding naive_loop
  naive_loop-Quiet zero fd = Quiet-pure true
  naive_loop-Quiet (suc n) fd =
      Quiet-bind (sys (fcntl_getfd (pos fd))) _ (search quiet_rules)
        (λ r. go r (naive_loop-Quiet n (fd + 1)))
    where
      go :
          (r : Reply)
          → Quiet (naive_loop conf n (fd + 1))
          → Quiet (elim r [
            | fail e ↦ naive_loop conf n (fd + 1)
            | done flags out ↦
                succeeds (fcntl_setfd (pos fd) (new_flags conf (pos fd) flags))
                and_then naive_loop conf n (fd + 1)
          ])
      go (fail e) g = g
      go (done flags out) g = search quiet_rules

  mark_fd-Quiet : (fd : ℤ) (r : Reply) → Quiet (mark_fd conf fd r)
  unfolding mark_fd
  mark_fd-Quiet fd (fail e) = close_false-Quiet
  mark_fd-Quiet fd (done flags out) = search (quiet_rules, close_false-Quiet)

  coe_entry-Quiet : (name : CString) → Quiet (coe_entry conf name)
  unfolding coe_entry numbered_fd
  coe_entry-Quiet name = search (quiet_rules, mark_fd-Quiet) depth 9

  proc_loop-Quiet : (fuel : ℕ) → Quiet (proc_loop fuel conf)
  unfolding proc_loop
  proc_loop-Quiet zero = Quiet-out_of_fuel
  proc_loop-Quiet (suc fuel) =
      Quiet-bind (sys readdir) _ (search quiet_rules) (λ r. go r (proc_loop-Quiet fuel))
    where
      go :
          (r : Reply)
          → Quiet (proc_loop fuel conf)
          → Quiet (elim r [
            | fail e ↦ close_false
            | done zero out ↦ sys closedir >> pure true
            | done (suc n) name ↦ coe_entry conf name and_then proc_loop fuel conf
          ])
      go (fail e) g = close_false-Quiet
      go (done zero out) g = search quiet_rules
      go (done (suc n) name) g = search (quiet_rules, coe_entry-Quiet)

  pub contain_make_fds_coe_proc-Quiet : (fuel : ℕ) → Quiet (contain_make_fds_coe_proc fuel conf)
  unfolding contain_make_fds_coe_proc
  contain_make_fds_coe_proc-Quiet fuel = search (quiet_rules, opened)
    where
      opened :
          (r : Reply) → Quiet (elim r [ fail e ↦ pure false | done n out ↦ proc_loop fuel conf ])
      opened (fail e) = Quiet-pure false
      opened (done n out) = proc_loop-Quiet fuel

  contain_make_fds_coe-Quiet : (fuel : ℕ) → Quiet (contain_make_fds_coe fuel conf)
  unfolding contain_make_fds_coe contain_make_fds_coe_naive
  contain_make_fds_coe-Quiet fuel =
      search (quiet_rules, naive_loop-Quiet, contain_make_fds_coe_proc-Quiet)

-- From the privileges on.
pub confine-Quiet :
    (fuel : ℕ) (conf : NsjConf)
    → Quiet (
        contain_drop_privs conf
        and_then contain_set_limits conf
        and_then contain_prepare_env conf
        and_then contain_make_fds_coe fuel conf)
confine-Quiet fuel conf =
    search
      (
        quiet_rules, contain_drop_privs-Quiet, contain_set_limits-Quiet, contain_prepare_env-Quiet,
        contain_make_fds_coe-Quiet,
      )
      depth 9

pid_cloned-Quiet : (r : Reply) → Quiet (pid_cloned r)
unfolding pid_cloned
pid_cloned-Quiet (fail e) = Quiet-pure false
pid_cloned-Quiet (done zero out) = search quiet_rules
pid_cloned-Quiet (done (suc pid) out) = Quiet-pure true

pub pid_init_ns-Quiet : (conf : NsjConf) → Quiet (pid_init_ns conf)
unfolding pid_init_ns
pid_init_ns-Quiet conf = search (quiet_rules, pid_cloned-Quiet) depth 9

pub cgroup_init_ns-Quiet : Quiet cgroup_init_ns
unfolding cgroup_init_ns
cgroup_init_ns-Quiet = search quiet_rules

pub contain_setup_fd-Quiet :
    (conf : NsjConf) (fd_in fd_out fd_err : ℤ) → Quiet (contain_setup_fd conf fd_in fd_out fd_err)
unfolding contain_setup_fd dup_all
contain_setup_fd-Quiet conf fd_in fd_out fd_err = search (quiet_rules, opened) depth 9
  where
    opened :
        (r : Reply)
        → Quiet (elim r [ fail e ↦ pure false | done fd out ↦ dup_all (pos fd) (pos fd) (pos fd) ])
    opened (fail e) = Quiet-pure false
    opened (done fd out) = search quiet_rules depth 9

pub contain_contain-Quiet : (fuel : ℕ) (conf : NsjConf) → Quiet (contain_contain fuel conf)
unfolding contain_contain
contain_contain-Quiet fuel conf =
    search
      (
        quiet_rules, pid_init_ns-Quiet, cgroup_init_ns-Quiet, mount_init_ns-Quiet,
        net_init_ns_from_child-Quiet, uts_init_ns-Quiet, confine-Quiet,
      )
      depth 16
