-- ===== src/Nsjail/Loops.antt =====
-- nsjail.c: what the main loops keep, round after round.
use nsjail.Common.{ℕ, ◌≡◌, refl, sym, ap, ◌∙◌, Option, none, some, inl, inr, ltb, ◌==◌}
use nsjail.Common.Int.{ℤ, pos, negsuc}
use nsjail.Os.{pause, close, sys}
use nsjail.Os.Ensures.{Ensures, Ensures-pure, Ensures-if, Ensures-after, Ensures-bind, Ensures-map}
use nsjail.Conf.{NsjConf}
use nsjail.Net.{net_accept_conn}
use nsjail.Subproc.{subproc_count, subproc_reap, subproc_kill_all}
use nsjail.Subproc.Shrink.{IsShrunk, subproc_reap-Ensures}
use nsjail.Subproc.Child.{subproc_run_child}
use nsjail.Subproc.Child.Added.{IsAdded, subproc_run_child-IsAdded}
use nsjail.Nsjail.{
  Flags, Run, Round, returns, continues, deliver, show_if_asked, serve, accept_round, listen_round,
  pause_round, is_once, after_reap, standalone_round,
}

-- The settings are as before: only the children may have changed.
abbrev pub Same : NsjConf → NsjConf → Type 0
Same conf conf' = conf' ≡ record conf { pids = conf'.pids }

pub Same-trans : (a b c : NsjConf) → Same a b → Same b c → Same a c
Same-trans a b c h k = let put : NsjConf → NsjConf = λ x. record x { pids = c.pids } in k ∙ ap put h

pub Same-of_added : (conf conf' : NsjConf) → IsAdded conf conf' → Same conf conf'
Same-of_added conf conf' (inl e) =
    e ∙ ap (λ ps. record conf { pids = ps }) (ap (λ c. c.pids) (sym e))
Same-of_added conf conf' (inr (p, e)) =
    e ∙ ap (λ ps. record conf { pids = ps }) (ap (λ c. c.pids) (sym e))

pub run_child-Same :
    (fuel : ℕ) (conf : NsjConf) (i o e : ℤ)
    → Ensures (Same conf) (subproc_run_child fuel conf i o e)
run_child-Same fuel conf i o e =
    Ensures-map (IsAdded conf) (Same conf) (Same-of_added conf) (subproc_run_child fuel conf i o e)
      (subproc_run_child-IsAdded fuel conf i o e)

pub reap-Same :
    (fuel reads : ℕ) (conf : NsjConf) → Ensures (λ s. Same conf s.0) (subproc_reap fuel reads conf)
reap-Same fuel reads conf =
    Ensures-map (λ s. IsShrunk conf s.0) (λ s. Same conf s.0) (λ s h. h.settings)
      (subproc_reap fuel reads conf) (subproc_reap-Ensures fuel reads conf)

-- If the loop goes on, it is with the same settings.
abbrev pub GoesOn : NsjConf → Round → Type 0
GoesOn conf (returns v) = Unit {0}
GoesOn conf (continues run) = Same conf run.conf

pub serve-Same :
    (fuel : ℕ) (conf : NsjConf) (conn : Option ℕ) → Ensures (Same conf) (serve fuel conf conn)
unfolding serve
serve-Same fuel conf none = Ensures-pure (Same conf) {a = conf} refl
serve-Same fuel conf (some fd) =
    Ensures-bind (Same conf) (Same conf) (subproc_run_child fuel conf (pos fd) (pos fd) (pos fd)) _
      (run_child-Same fuel conf (pos fd) (pos fd) (pos fd))
      (λ conf' s.
        Ensures-after (Same conf) (sys (close (pos fd))) _
          (λ _. Ensures-pure (Same conf) {a = conf'} s))

pub listen_round-GoesOn :
    (fuel : ℕ) (listenfd : ℤ) (run : Run)
    → Ensures (GoesOn run.conf) (listen_round fuel listenfd run)
unfolding listen_round accept_round
listen_round-GoesOn fuel listenfd run =
    let P = GoesOn run.conf in
    let conf = run.conf in
    Ensures-after P (deliver run.flags) _ (λ f.
      Ensures-if P (ltb 0 f.sig_fatal) _ _
        (Ensures-after P (subproc_kill_all conf.pids) _ (λ _.
          Ensures-after P (sys (close listenfd)) _ (λ _. Ensures-pure P {a = returns (pos 0)} tt)))
        (Ensures-after P (show_if_asked conf f) _ (λ f'.
          Ensures-after P (net_accept_conn listenfd) _ (λ conn.
            Ensures-bind P (Same conf) (serve fuel conf conn) _ (serve-Same fuel conf conn)
              (λ conf' s.
                Ensures-bind P (λ r. Same conf' r.0) (subproc_reap fuel fuel conf') _
                  (reap-Same fuel fuel conf')
                  (λ r t.
                    Ensures-pure P {a = continues (record { conf = r.0; flags = f' })}
                      (Same-trans conf conf' r.0 s t)))))))

pause_round-GoesOn :
    (conf : NsjConf) (flags : Flags) → Ensures (GoesOn conf) (pause_round conf flags)
unfolding pause_round
pause_round-GoesOn conf flags =
    let P = GoesOn conf in
    Ensures-after P (show_if_asked conf flags) _ (λ f. Ensures-after P (deliver f) _ (λ f'.
      Ensures-if P (ltb 0 f'.sig_fatal) _ _
        (Ensures-after P (subproc_kill_all conf.pids) _
          (λ _. Ensures-pure P {a = returns (negsuc 0)} tt))
        (Ensures-after P (sys pause) _
          (λ _. Ensures-pure P {a = continues (record { conf = conf; flags = f' })} refl))))

after_reap-GoesOn :
    (fuel : ℕ) (flags : Flags) (conf : NsjConf) (status : ℕ)
    → Ensures (GoesOn conf) (after_reap fuel flags conf status)
unfolding after_reap
after_reap-GoesOn fuel flags conf status =
    let P = GoesOn conf in
    Ensures-if P (subproc_count conf == 0) _ _
      (Ensures-if P (is_once conf.mode) _ _ (Ensures-pure P {a = returns (pos status)} tt) (
        Ensures-bind P (Same conf) (subproc_run_child fuel conf (pos 0) (pos 1) (pos 2)) _
          (run_child-Same fuel conf (pos 0) (pos 1) (pos 2))
          (λ conf' s. Ensures-pure P {a = continues (record { conf = conf'; flags = flags })} s)))
      (pause_round-GoesOn conf flags)

pub GoesOn-trans : (a b : NsjConf) → Same a b → (r : Round) → GoesOn b r → GoesOn a r
GoesOn-trans a b s (returns v) g = tt
GoesOn-trans a b s (continues run) g = Same-trans a b run.conf s g

pub standalone_round-GoesOn :
    (fuel : ℕ) (run : Run) → Ensures (GoesOn run.conf) (standalone_round fuel run)
unfolding standalone_round
standalone_round-GoesOn fuel run =
    Ensures-bind (GoesOn run.conf) (λ s. Same run.conf s.0) (subproc_reap fuel fuel run.conf) _
      (reap-Same fuel fuel run.conf)
      (λ s h.
        Ensures-map (GoesOn s.0) (GoesOn run.conf) (GoesOn-trans run.conf s.0 h) _
          (after_reap-GoesOn fuel run.flags s.0 s.1))
