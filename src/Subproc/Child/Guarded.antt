-- ===== src/Subproc/Child/Guarded.antt =====
-- subproc.c: whatever a process does on the way, a program is executed only once the process is
-- confined, sandboxed and sealed.
use Prim.Native.Nat.{bit_or}
use nsjail.Common.{ℕ, zero, suc, ◌≡◌, refl, Bool, true, false, List, ◌∷◌, get_or, if◌then◌else◌}
use nsjail.Common.Int.{ℤ, pos, negsuc}
use nsjail.Os.{
  CString, Event, World, execv, unshare, clone, socketpair, close, Reply, fail, done, replaced,
  Action, pure, exit, sys, failed, ◌>>=◌, ◌>>◌,
}
use nsjail.Os.Quiet.{Quiet-pure, quiet_rules}
use nsjail.Os.Guarded.{Guarded, Guards, Guards-Quiet, Guards-if, Guards-after, Guards-then}
use nsjail.Conf.{NsjConf, is_execve}
use nsjail.Net.{net_limit_conns}
use nsjail.Net.Kept.{net_limit_conns-Quiet, net_conn_to_text-Quiet}
use nsjail.Contain.State.{state}
use nsjail.Mount.Readonly.{Sealed}
use nsjail.Subproc.Child.{
  or_exit, execute, clone_flags, prepare_proc, subproc_new_proc, cloned, spawn, enter,
  subproc_run_child,
}
use nsjail.Subproc.Child.Kept.{prepare_proc-Quiet, subproc_add-Quiet, subproc_init_parent-Quiet}
use nsjail.Subproc.Child.Exec.{IsReady, prepare_proc-IsReady}
use nsjail.Subproc.Child.Sealed.{prepare_proc-Sealed}

-- The mounts are sealed in the modes that clone, with a mount namespace of the jail's own.
abbrev pub SealedIn : Bool → Bool → NsjConf → List Event → Type 0
SealedIn false true conf log = Sealed conf log
SealedIn _ _ conf log = Unit {0}

-- What is true when the program `argv` is executed after the calls `log`.
pub record IsJailed (conf : NsjConf) (argv : List CString) (log : List Event) : Type 0 where
  pub program : argv ≡ conf.argv
  pub ready : IsReady conf (state log)
  pub sealed : SealedIn (is_execve conf.mode) conf.clone_newns conf log

sealed_in :
    (execve_mode own : Bool) (conf : NsjConf) (log : List Event)
    → (execve_mode ≡ false → own ≡ true → Sealed conf log)
    → SealedIn execve_mode own conf log
sealed_in true own conf log s = tt
sealed_in false false conf log s = tt
sealed_in false true conf log s = s refl refl

module _ {R : List CString → List Event → Type 0} (fuel : ℕ) (conf : NsjConf)
    (allowed : (argv : List CString) (log : List Event) → IsJailed conf argv log → R argv log) where
  executed :
      (r : Reply) (w : World)
      → Guarded R w.log
      → Guarded R
          ((elim r as (λ _. Action (Unit {0})) [
            | fail e ↦ exit 1
            | done n out ↦ λ w. (replaced, w)
          ])
            w).1.log
  executed (fail e) w g = g
  executed (done n out) w g = g

  execute-Guarded :
      (argv : List CString) (w : World)
      → R argv w.log
      → Guarded R w.log
      → Guarded R (execute argv w).1.log
  unfolding execute Guarded
  execute-Guarded argv w r g =
      let answer = w.kernel w.log (execv argv) in
      executed answer (record w { log = (execv argv, answer) ∷ w.log }) (r, g)

  subproc_new_proc-Guards :
      (fd_in fd_out fd_err pipefd : ℤ)
      → Guards R (subproc_new_proc fuel conf fd_in fd_out fd_err pipefd)
  unfolding subproc_new_proc
  subproc_new_proc-Guards i o e p =
      let prepare = prepare_proc fuel conf i o e p in
      Guards-after prepare (λ _. execute conf.argv)
        (Guards-Quiet prepare (prepare_proc-Quiet fuel conf i o e p))
        (λ w b h g.
          execute-Guarded conf.argv (prepare w).1
            (allowed conf.argv (prepare w).1.log (record {
              program = refl;
              ready = prepare_proc-IsReady fuel conf i o e p w h;
              sealed =
                  sealed_in (is_execve conf.mode) conf.clone_newns conf (prepare w).1.log
                    (λ clones own. prepare_proc-Sealed fuel conf i o e p w clones own h);
            }))
            g)

  cloned-Guards :
      (fd_in fd_out fd_err child_fd parent_fd : ℤ) (r : Reply)
      → Guards R (cloned fuel conf fd_in fd_out fd_err child_fd parent_fd r)
  unfolding cloned
  cloned-Guards i o e child_fd parent_fd (fail n) = Guards-Quiet _ (search quiet_rules)
  cloned-Guards i o e child_fd parent_fd (done zero out) =
      let new_proc = subproc_new_proc fuel conf i o e child_fd in
      Guards-then (sys (close parent_fd) >> new_proc) (λ _. pure conf)
        (Guards-then (sys (close parent_fd)) (λ _. new_proc)
          (Guards-Quiet (sys (close parent_fd)) (search quiet_rules))
          (λ _. subproc_new_proc-Guards i o e child_fd))
        (λ _. Guards-Quiet (pure conf) (Quiet-pure conf))
  cloned-Guards i o e child_fd parent_fd (done (suc n) out) =
      Guards-Quiet (cloned fuel conf i o e child_fd parent_fd (done (suc n) out)) (
        search (quiet_rules, subproc_add-Quiet, subproc_init_parent-Quiet, net_conn_to_text-Quiet)
          depth 12)

  spawn-Guards :
      (fd_in fd_out fd_err : ℤ) (r : Reply) → Guards R (spawn fuel conf fd_in fd_out fd_err r)
  unfolding spawn
  spawn-Guards i o e (fail n) = Guards-Quiet (pure conf) (Quiet-pure conf)
  spawn-Guards i o e (done n sv) =
      Guards-then (sys (clone (bit_or (clone_flags conf) 17)))
        (cloned fuel conf i o e (pos (get_or sv 0 0)) (pos (get_or sv 1 0)))
        (Guards-Quiet (sys (clone (bit_or (clone_flags conf) 17))) (search quiet_rules))
        (cloned-Guards i o e (pos (get_or sv 0 0)) (pos (get_or sv 1 0)))

  enter-Guards : (fd_in fd_out fd_err : ℤ) → Guards R (enter fuel conf fd_in fd_out fd_err)
  unfolding enter
  enter-Guards i o e =
      let own =
        or_exit
          (sys (unshare (clone_flags conf)) >>= λ r. pure (if failed r then false else true)) in
      Guards-if (is_execve conf.mode) _ _
        (Guards-then own (λ _. subproc_new_proc fuel conf i o e (negsuc 0))
          (Guards-Quiet own (search quiet_rules)) (λ _. subproc_new_proc-Guards i o e (negsuc 0)))
        (Guards-Quiet (pure tt) (Quiet-pure tt))

  pub subproc_run_child-Guards :
      (fd_in fd_out fd_err : ℤ) → Guards R (subproc_run_child fuel conf fd_in fd_out fd_err)
  unfolding subproc_run_child
  subproc_run_child-Guards i o e =
      Guards-then (net_limit_conns conf i) _
        (Guards-Quiet (net_limit_conns conf i) (net_limit_conns-Quiet conf i))
        (λ ok.
          Guards-if ok _ _
            (Guards-then (enter fuel conf i o e) _ (enter-Guards i o e) (λ _.
              Guards-then (sys socketpair) _ (Guards-Quiet (sys socketpair) (search quiet_rules))
                (spawn-Guards i o e)))
            (Guards-Quiet (pure conf) (Quiet-pure conf)))
