-- ===== src/Os/Wait.antt =====
-- Waiting for one child, as mount.c and net.c do.
use nsjail.Common.{ℕ, Bool, List, zero, suc, true, false, not, ◌&&◌, get_or, ◌==◌}
use nsjail.Common.Int.{pos}
use nsjail.Os.{wait4, Action, pure, out_of_fuel, sys, failed, result_of, out_of, ◌>>=◌}
use nsjail.Os.Quiet.{Quiet, Quiet-pure, Quiet-out_of_fuel, Quiet-bind, quiet_rules}

-- `while (wait4(...) != pid) ;`, in which `fuel` bounds the calls: the status.
unfoldable pub wait_for : ℕ → ℕ → Action ℕ
wait_for zero pid = out_of_fuel
wait_for (suc fuel) pid = do
  r ← sys (wait4 (pos pid))
  elim (not (failed r) && result_of r == pid) [
    | true ↦ pure (get_or (out_of r) 0 0)
    | false ↦ wait_for fuel pid
  ]

pub wait_for-Quiet : (fuel pid : ℕ) → Quiet (wait_for fuel pid)
unfolding wait_for
wait_for-Quiet zero pid = Quiet-out_of_fuel
wait_for-Quiet (suc fuel) pid =
    Quiet-bind (sys (wait4 (pos pid))) _ (search quiet_rules)
      (λ r. go (out_of r) (not (failed r) && result_of r == pid) (wait_for-Quiet fuel pid))
  where
    go :
        (out : List ℕ) (ended : Bool)
        → Quiet (wait_for fuel pid)
        → Quiet (elim ended [ true ↦ pure (get_or out 0 0) | false ↦ wait_for fuel pid ])
    go out true ih = Quiet-pure (get_or out 0 0)
    go out false ih = ih
