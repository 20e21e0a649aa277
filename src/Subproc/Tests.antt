-- ===== src/Subproc/Tests.antt =====
-- A table of two children, one of which has had its time.
use nsjail.Common.{◌<◌, ◌≡◌, refl, true, ◌↔◌, some, [], ◌∷◌}
use nsjail.Common.Int.{pos}
use nsjail.Os.{Kernel, World, waitid, wait4, done, value}
use nsjail.Conf.{NsjConf}
use nsjail.Tests.Worlds.{conf, child, start}
use nsjail.Subproc.{
  get_pid_elem, subproc_remove, kill_overdue, note_status, rv_of_exit, rv_of_signal, wexitstatus,
  subproc_reap, reap_loop, reap_child, collect, remove_if, close_elem, without_pid,
  subproc_seccomp_violation,
}
use nsjail.Cgroup.{cgroup_finish_from_parent}
use nsjail.Subproc.Shrink.{IsReaped, subproc_reap-IsReaped}
use nsjail.Subproc.Table.{IsDistinct, IsRemoved, subproc_remove-IsRemoved}
use nsjail.Subproc.Deadline.{killed, killed-kill_overdue}
use nsjail.Subproc.Reap.{rv_of, rv_of_bounds, note_status-IsRemoved}

conf-IsDistinct : IsDistinct conf.pids
unfolding get_pid_elem
conf-IsDistinct = (refl, (refl, tt))

listed : get_pid_elem (pos 22) conf.pids ≡ some (child 22 15 2)
unfolding get_pid_elem
listed = refl

subproc_remove-IsRemoved_example :
    (conf' : NsjConf) × ((subproc_remove conf (pos 22) start).0 ≡ value conf')
    × IsRemoved conf (pos 22) (child 22 15 2) start conf' (subproc_remove conf (pos 22) start).1
subproc_remove-IsRemoved_example =
    subproc_remove-IsRemoved conf (pos 22) (child 22 15 2) start conf-IsDistinct listed

-- At time 15 the first child has run for just its 10 seconds, the second one has begun.
killed-kill_overdue_example :
    killed (pos 21) (kill_overdue conf (pos 15) conf.pids start).1.log ≡ true
killed-kill_overdue_example = killed-kill_overdue conf (pos 15) (pos 21) conf.pids start

-- The second child is killed by SIGKILL.
note_status-IsRemoved_example :
    (conf' : NsjConf) × ((note_status conf (pos 22) 9 0 start).0 ≡ value (conf', rv_of 9))
    × IsRemoved conf (pos 22) (child 22 15 2) start conf' (note_status conf (pos 22) 9 0 start).1
note_status-IsRemoved_example =
    note_status-IsRemoved conf (pos 22) (child 22 15 2) 9 0 start conf-IsDistinct listed refl

rv_of_bounds_example :
    (rv_of_exit 25600 < 100)
    × ((rv_of_exit 25600 ≡ 0) ↔ (wexitstatus 25600 ≡ 0))
    × (100 < rv_of_signal 9)
    × (rv_of_signal 9 < 227)
rv_of_bounds_example = rv_of_bounds 9 25600 refl

-- The second child has been killed, and is waited for.
abbrev busy : Kernel
busy [] waitid = done 0 (22 ∷ 2 ∷ 9 ∷ [])
busy log (wait4 pid) = done 22 (9 ∷ [])
busy log c = done 0 []

abbrev busy_world : World
busy_world = record { kernel = busy; log = [] }

abbrev remaining : NsjConf
remaining = record conf { pids = child 21 5 1 ∷ [] }

reaped : (subproc_reap 2 1 conf busy_world).0 ≡ value (remaining, 109)
unfolding subproc_reap reap_loop reap_child collect note_status remove_if subproc_remove close_elem
    get_pid_elem without_pid cgroup_finish_from_parent rv_of_signal rv_of_exit kill_overdue
    subproc_seccomp_violation
reaped = refl

subproc_reap-IsReaped_example : IsReaped conf remaining
subproc_reap-IsReaped_example =
    subproc_reap-IsReaped 2 1 conf remaining 109 busy_world conf-IsDistinct reaped
