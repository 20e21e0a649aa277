-- ===== src/Nsjail/Guarded.antt =====
-- nsjail.c: whatever happens in its loops, the program executes nothing outside of a jail that is
-- made as the command line says.
use nsjail.Common.{ℕ, zero, suc, false, Option, none, some, List, ltb, ◌==◌}
use nsjail.Common.Int.{ℤ, pos}
use nsjail.Os.{CString, Event, close, Action, pure, sys, ◌>>=◌, ◌>>◌}
use nsjail.Os.Quiet.{Quiet, Quiet-pure, Quiet-out_of_fuel, quiet_rules}
use nsjail.Os.Ensures.{Ensures}
use nsjail.Os.Guarded.{Guards, Guards-Quiet, Guards-if, Guards-bind, Guards-then}
use nsjail.Conf.{NsjConf, is_listen_tcp}
use nsjail.Net.{net_accept_conn}
use nsjail.Net.Kept.{net_accept_conn-Quiet}
use nsjail.Net.Listen.{net_get_recv_socket}
use nsjail.Net.Listen.Kept.{net_get_recv_socket-Quiet}
use nsjail.Subproc.{subproc_count, subproc_reap, subproc_kill_all}
use nsjail.Subproc.Kept.{subproc_reap-Quiet, subproc_kill_all-Quiet}
use nsjail.Subproc.Child.{subproc_run_child}
use nsjail.Subproc.Child.Guarded.{IsJailed, subproc_run_child-Guards}
use nsjail.Nsjail.{
  Flags, Run, Round, returns, continues, deliver, show_if_asked, serve, accept_round, listen_round,
  pause_round, is_once, after_reap, standalone_round, rounds_of, nsjail_listen_mode,
  nsjail_standalone_mode, run_mode,
}
use nsjail.Nsjail.Kept.{deliver-Quiet, show_if_asked-Quiet, pause_round-Quiet}
use nsjail.Nsjail.Loops.{
  Same, Same-trans, run_child-Same, reap-Same, GoesOn, listen_round-GoesOn, standalone_round-GoesOn,
}

module _ {R : List CString → List Event → Type 0} (settings : NsjConf)
    (allowed : (conf : NsjConf) (argv : List CString) (log : List Event)
      → Same settings conf
      → IsJailed conf argv log
      → R argv log)
    (fuel : ℕ) where
  child-Guards :
      (conf : NsjConf) (fd_in fd_out fd_err : ℤ)
      → Same settings conf
      → Guards R (subproc_run_child fuel conf fd_in fd_out fd_err)
  child-Guards conf i o e s =
      subproc_run_child-Guards fuel conf (λ argv log j. allowed conf argv log s j) i o e

  serve-Guards :
      (conf : NsjConf) (conn : Option ℕ) → Same settings conf → Guards R (serve fuel conf conn)
  unfolding serve
  serve-Guards conf none s = Guards-Quiet (pure conf) (Quiet-pure conf)
  serve-Guards conf (some fd) s =
      Guards-then (subproc_run_child fuel conf (pos fd) (pos fd) (pos fd)) _
        (child-Guards conf (pos fd) (pos fd) (pos fd) s)
        (λ conf'. Guards-Quiet (sys (close (pos fd)) >> pure conf') (search quiet_rules))

  reap_round :
      (conf : NsjConf) (f : Flags)
      → Guards R
          (subproc_reap fuel fuel conf >>= λ s. pure (continues (record { conf = s.0; flags = f })))
  reap_round conf f = Guards-Quiet _ (search (quiet_rules, subproc_reap-Quiet))

  accept_round-Guards :
      (listenfd : ℤ) (conf : NsjConf) (flags : Flags)
      → Same settings conf
      → Guards R (accept_round fuel listenfd conf flags)
  unfolding accept_round
  accept_round-Guards listenfd conf flags s =
      Guards-then (show_if_asked conf flags) _
        (Guards-Quiet (show_if_asked conf flags) (show_if_asked-Quiet conf flags))
        (λ f.
          Guards-then (net_accept_conn listenfd) _
            (Guards-Quiet (net_accept_conn listenfd) (net_accept_conn-Quiet listenfd))
            (λ conn.
              Guards-then (serve fuel conf conn) _ (serve-Guards conf conn s)
                (λ conf'. reap_round conf' f)))

  ended-Quiet :
      (listenfd : ℤ) (conf : NsjConf)
      → Quiet (subproc_kill_all conf.pids >> (sys (close listenfd) >> pure (returns (pos 0))))
  ended-Quiet listenfd conf = search (quiet_rules, subproc_kill_all-Quiet)

  listen_round-Guards :
      (listenfd : ℤ) (run : Run)
      → Same settings run.conf
      → Guards R (listen_round fuel listenfd run)
  unfolding listen_round
  listen_round-Guards listenfd run s =
      Guards-then (deliver run.flags) _ (Guards-Quiet (deliver run.flags) (deliver-Quiet run.flags))
        (λ f.
          Guards-if (ltb 0 f.sig_fatal) _ _ (Guards-Quiet _ (ended-Quiet listenfd run.conf))
            (accept_round-Guards listenfd run.conf f s))

  after_reap-Guards :
      (flags : Flags) (conf : NsjConf) (status : ℕ)
      → Same settings conf
      → Guards R (after_reap fuel flags conf status)
  unfolding after_reap
  after_reap-Guards flags conf status s =
      Guards-if (subproc_count conf == 0) _ _
        (Guards-if (is_once conf.mode) _ _
          (Guards-Quiet (pure (returns (pos status))) (Quiet-pure (returns (pos status))))
          (Guards-then (subproc_run_child fuel conf (pos 0) (pos 1) (pos 2)) _
            (child-Guards conf (pos 0) (pos 1) (pos 2) s)
            (λ conf'.
              let run : Run = record { conf = conf'; flags = flags } in
              Guards-Quiet (pure (continues run)) (Quiet-pure (continues run)))))
        (Guards-Quiet (pause_round conf flags) (pause_round-Quiet conf flags))

  standalone_round-Guards :
      (run : Run) → Same settings run.conf → Guards R (standalone_round fuel run)
  unfolding standalone_round
  standalone_round-Guards run s =
      Guards-bind (λ r. Same run.conf r.0) (subproc_reap fuel fuel run.conf) _
        (Guards-Quiet (subproc_reap fuel fuel run.conf) (subproc_reap-Quiet fuel fuel run.conf))
        (reap-Same fuel fuel run.conf)
        (λ r t. after_reap-Guards run.flags r.0 r.1 (Same-trans settings run.conf r.0 s t))

  rounds_of-Guards :
      (round : Run → Action Round)
      → ((run : Run) → Same settings run.conf → Guards R (round run))
      → ((run : Run) → Ensures (GoesOn run.conf) (round run))
      → (rounds : ℕ) (run : Run) → Same settings run.conf
      → Guards R (rounds_of round rounds run)
  unfolding rounds_of
  rounds_of-Guards round g e zero run s = Guards-Quiet _ Quiet-out_of_fuel
  rounds_of-Guards round g e (suc rounds) run s =
      Guards-bind (GoesOn run.conf) (round run) _ (g run s) (e run)
        (λ r h. go r h (rounds_of-Guards round g e rounds))
    where
      go :
          (r : Round)
          → GoesOn run.conf r
          → ((next : Run) → Same settings next.conf → Guards R (rounds_of round rounds next))
          → Guards R (elim r as (λ _. Action ℤ) [
            | returns v ↦ pure v
            | continues next ↦ rounds_of round rounds next
          ])
      go (returns v) h ih = Guards-Quiet (pure v) (Quiet-pure v)
      go (continues next) h ih = ih next (Same-trans settings run.conf next.conf s h)

  nsjail_listen_mode-Guards :
      (rounds : ℕ) (conf : NsjConf) (flags : Flags)
      → Same settings conf
      → Guards R (nsjail_listen_mode rounds fuel conf flags)
  unfolding nsjail_listen_mode
  nsjail_listen_mode-Guards rounds conf flags s =
      Guards-then (net_get_recv_socket conf.bindhost conf.port) _
        (Guards-Quiet (net_get_recv_socket conf.bindhost conf.port)
          (net_get_recv_socket-Quiet conf.bindhost conf.port))
        opened
    where
      opened :
          (sock : Option ℕ)
          → Guards R (elim sock as (λ _. Action ℤ) [
            | none ↦ pure (pos 0)
            | some fd ↦
                rounds_of
                  (listen_round fuel (pos fd))
                  rounds
                  (record { conf = conf; flags = flags })
          ])
      opened none = Guards-Quiet (pure (pos 0)) (Quiet-pure (pos 0))
      opened (some fd) =
          rounds_of-Guards (listen_round fuel (pos fd)) (listen_round-Guards (pos fd))
            (listen_round-GoesOn fuel (pos fd)) rounds (record { conf = conf; flags = flags }) s

  nsjail_standalone_mode-Guards :
      (rounds : ℕ) (conf : NsjConf) (flags : Flags)
      → Same settings conf
      → Guards R (nsjail_standalone_mode rounds fuel conf flags)
  unfolding nsjail_standalone_mode
  nsjail_standalone_mode-Guards rounds conf flags s =
      Guards-bind (Same conf) (subproc_run_child fuel conf (pos 0) (pos 1) (pos 2)) _
        (child-Guards conf (pos 0) (pos 1) (pos 2) s)
        (run_child-Same fuel conf (pos 0) (pos 1) (pos 2))
        (λ conf' t.
          rounds_of-Guards (standalone_round fuel) standalone_round-Guards
            (standalone_round-GoesOn fuel) rounds (record { conf = conf'; flags = flags })
            (Same-trans settings conf conf' s t))

  -- Either mode, from settings that have been read.
  pub run_mode-Guards :
      (rounds : ℕ) (conf : NsjConf) → Same settings conf → Guards R (run_mode rounds fuel conf)
  unfolding run_mode
  run_mode-Guards rounds conf s =
      let flags : Flags = record { sig_fatal = 0; show_proc = false } in
      Guards-if (is_listen_tcp conf.mode) _ _ (nsjail_listen_mode-Guards rounds conf flags s)
        (nsjail_standalone_mode-Guards rounds conf flags s)
