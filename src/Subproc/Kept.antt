-- ===== src/Subproc/Kept.antt =====
-- subproc.c: following the children executes no program.
use nsjail.Common.{
  ℕ, zero, suc, Bool, true, false, ◌||◌, Option, none, some, List, [], ◌∷◌, ◌==◌, if◌then◌else◌,
}
use nsjail.Common.Int.{ℤ, pos, eq_ℤ}
use nsjail.Os.{waitid, kill, Reply, fail, done, pure, sys, failed, ◌>>=◌, ◌>>◌}
use nsjail.Os.Quiet.{Quiet, Quiet-pure, Quiet-out_of_fuel, Quiet-if, Quiet-bind, quiet_rules}
use nsjail.Conf.{NsjConf, PidElem}
use nsjail.Util.Kept.{util_read_from_fd-Quiet}
use nsjail.Cgroup.Kept.{cgroup_finish_from_parent-Quiet}
use nsjail.Subproc.{
  close_elem, subproc_remove, read_syscall, subproc_seccomp_violation, remove_if, note_status,
  collect, reap_child, reap_loop, overdue, kill_overdue, subproc_reap, subproc_display,
  subproc_kill_all, si_pid,
}

close_elem-Quiet : (found : Option PidElem) → Quiet (close_elem found)
unfolding close_elem
close_elem-Quiet none = Quiet-pure tt
close_elem-Quiet (some p) = search quiet_rules

subproc_remove-Quiet : (conf : NsjConf) (pid : ℤ) → Quiet (subproc_remove conf pid)
unfolding subproc_remove
subproc_remove-Quiet conf pid = search (quiet_rules, close_elem-Quiet)

read_syscall-Quiet : (fuel : ℕ) (found : Option PidElem) → Quiet (read_syscall fuel found)
unfolding read_syscall
read_syscall-Quiet fuel none = Quiet-pure tt
read_syscall-Quiet fuel (some p) = search (quiet_rules, util_read_from_fd-Quiet)

remove_if-Quiet :
    (b : Bool) (conf : NsjConf) (pid : ℤ) (v rv : ℕ) → Quiet (remove_if b conf pid v rv)
unfolding remove_if
remove_if-Quiet false conf pid v rv = Quiet-pure (conf, rv)
remove_if-Quiet true conf pid v rv = search (quiet_rules, subproc_remove-Quiet)

collect-Quiet : (conf : NsjConf) (pid rv : ℕ) (r : Reply) → Quiet (collect conf pid rv r)
unfolding collect note_status
collect-Quiet conf pid rv (fail e) = Quiet-pure (conf, rv)
collect-Quiet conf pid rv (done n out) =
    search (quiet_rules, cgroup_finish_from_parent-Quiet, remove_if-Quiet)

reap_child-Quiet :
    (fuel : ℕ) (conf : NsjConf) (rv : ℕ) (r : Reply) → Quiet (reap_child fuel conf rv r)
unfolding reap_child subproc_seccomp_violation
reap_child-Quiet fuel conf rv r = search (quiet_rules, read_syscall-Quiet, collect-Quiet)

reap_loop-Quiet : (fuel reads : ℕ) (conf : NsjConf) (rv : ℕ) → Quiet (reap_loop fuel reads conf rv)
unfolding reap_loop
reap_loop-Quiet zero reads conf rv = Quiet-out_of_fuel
reap_loop-Quiet (suc fuel) reads conf rv =
    Quiet-bind (sys waitid) _ (search quiet_rules)
      (λ r. go r (failed r || si_pid r == 0) (reap_loop-Quiet fuel reads))
  where
    go :
        (r : Reply) (stop : Bool)
        → ((conf : NsjConf) (rv : ℕ) → Quiet (reap_loop fuel reads conf rv))
        → Quiet {A = NsjConf × ℕ} (elim stop [
          | true ↦ pure (conf, rv)
          | false ↦ do s ← reap_child reads conf rv r; reap_loop fuel reads s.0 s.1
        ])
    go r true ih = Quiet-pure (conf, rv)
    go r false ih =
        Quiet-bind (reap_child reads conf rv r) _ (reap_child-Quiet reads conf rv r)
          (λ s. ih s.0 s.1)

kill_overdue-Quiet :
    (conf : NsjConf) (now : ℤ) (pids : List PidElem) → Quiet (kill_overdue conf now pids)
unfolding kill_overdue
kill_overdue-Quiet conf now [] = Quiet-pure tt
kill_overdue-Quiet conf now (p ∷ pids) =
    Quiet-if (eq_ℤ conf.tlimit (pos 0)) _ _ (kill_overdue-Quiet conf now pids) (
      Quiet-bind
        (if overdue conf now p
          then sys (kill p.pid 18) >> sys (kill p.pid 9) >> pure tt
          else pure tt)
        _ (search quiet_rules) (λ _. kill_overdue-Quiet conf now pids))

pub subproc_reap-Quiet : (fuel reads : ℕ) (conf : NsjConf) → Quiet (subproc_reap fuel reads conf)
unfolding subproc_reap
subproc_reap-Quiet fuel reads conf = search (quiet_rules, reap_loop-Quiet, kill_overdue-Quiet)

pub subproc_display-Quiet : (conf : NsjConf) → Quiet (subproc_display conf)
unfolding subproc_display
subproc_display-Quiet conf = search quiet_rules

pub subproc_kill_all-Quiet : (pids : List PidElem) → Quiet (subproc_kill_all pids)
unfolding subproc_kill_all
subproc_kill_all-Quiet [] = Quiet-pure tt
subproc_kill_all-Quiet (p ∷ pids) =
    Quiet-bind (sys (kill p.pid 9)) _ (search quiet_rules) (λ _. subproc_kill_all-Quiet pids)
