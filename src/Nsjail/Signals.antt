-- ===== src/Nsjail/Signals.antt =====
-- nsjail.c: what a fatal signal does to the loops.
use nsjail.Common.{
  ℕ, suc, ◌≡◌, refl, ap, ◌∙◌, Bool, true, false, not, ◌&&◌, ◌||◌, List, [], ◌∷◌, ltb, ◌==◌, arith,
  if◌then◌else◌,
}
use nsjail.Common.Int.{ℤ, pos}
use nsjail.Os.{World, value, signals, kill, close, Action, pure, sys, out_of, ◌>>◌}
use nsjail.Os.Laws.{>>=-value}
use nsjail.Conf.{PidElem}
use nsjail.Subproc.{subproc_kill_all}
use nsjail.Subproc.Deadline.{killed, has_pid, killed-subproc_kill_all}
use nsjail.Nsjail.{
  Flags, Run, Round, returns, continues, nsjail_sig, handle_all, listen_round, accept_round,
  rounds_of,
}

-- The handler takes it for a request to end.
abbrev pub is_fatal : ℕ → Bool
is_fatal sig = ltb 0 sig && not (sig == 14 || (sig == 17 || sig == 10))

abbrev pub any_fatal : List ℕ → Bool
any_fatal [] = false
any_fatal (sig ∷ sigs) = is_fatal sig || any_fatal sigs

-- No signal is 0.
abbrev pub are_signals : List ℕ → Bool
are_signals [] = true
are_signals (sig ∷ sigs) = ltb 0 sig && are_signals sigs

nsjail_sig-fatal :
    (sig : ℕ) (flags : Flags)
    → ltb 0 sig ≡ true
    → ltb 0 (nsjail_sig sig flags).sig_fatal ≡ is_fatal sig || ltb 0 flags.sig_fatal
unfolding nsjail_sig
nsjail_sig-fatal sig flags h = ground arith

or_move : (a b c : Bool) → a || (b || c) ≡ (b || a) || c
or_move true true c = refl
or_move true false c = refl
or_move false true c = refl
or_move false false c = refl

both_true : (a b : Bool) → a && b ≡ true → (a ≡ true) × (b ≡ true)
both_true true b h = (refl, h)
both_true false b h = absurd (ground arith)

handle_all-fatal :
    (sigs : List ℕ) (flags : Flags)
    → are_signals sigs ≡ true
    → ltb 0 (handle_all sigs flags).sig_fatal ≡ any_fatal sigs || ltb 0 flags.sig_fatal
unfolding handle_all
handle_all-fatal [] flags h = refl
handle_all-fatal (sig ∷ sigs) flags h =
    let (now, later) = both_true (ltb 0 sig) (are_signals sigs) h in
    handle_all-fatal sigs (nsjail_sig sig flags) later
    ∙ ap (λ b. any_fatal sigs || b) (nsjail_sig-fatal sig flags now)
    ∙ or_move (any_fatal sigs) (is_fatal sig) (ltb 0 flags.sig_fatal)

kill_all-value : (pids : List PidElem) (w : World) → (subproc_kill_all pids w).0 ≡ value tt
unfolding subproc_kill_all
kill_all-value [] w = refl
kill_all-value (p ∷ pids) w =
    kill_all-value pids (record w { log = (kill p.pid 9, w.kernel w.log (kill p.pid 9)) ∷ w.log })

-- The world after the handlers have run and the children are killed.
abbrev after_kills : List PidElem → World → World
after_kills pids w = (subproc_kill_all pids (sys signals w).1).1

ending :
    (b : Bool) (listenfd : ℤ) (pids : List PidElem) (rest : Action Round) (w : World)
    → b ≡ true
    → (if b
          then subproc_kill_all pids >> (sys (close listenfd) >> pure (returns (pos 0)))
          else rest)
        (sys signals w).1
      ≡ (value (returns (pos 0)), (sys (close listenfd) (after_kills pids w)).1)
ending false listenfd pids rest w e = absurd (ground arith)
ending true listenfd pids rest w e =
    let w1 : World = (sys signals w).1 in
    let leave : Unit {0} → Action Round = λ _. sys (close listenfd) >> pure (returns (pos 0)) in
    >>=-value leave (subproc_kill_all pids) w1 tt (after_kills pids w)
      (ap (λ r. (r, after_kills pids w)) (kill_all-value pids w1))

listen_round-ends :
    (fuel : ℕ) (listenfd : ℤ) (run : Run) (w : World)
    → ltb 0 (handle_all (out_of (w.kernel w.log signals)) run.flags).sig_fatal ≡ true
    → listen_round fuel listenfd run w
      ≡ (value (returns (pos 0)), (sys (close listenfd) (after_kills run.conf.pids w)).1)
unfolding listen_round
listen_round-ends fuel listenfd run w h =
    let flags = handle_all (out_of (w.kernel w.log signals)) run.flags in
    ending (ltb 0 flags.sig_fatal) listenfd run.conf.pids
      (accept_round fuel listenfd run.conf flags) w h

-- The signals of which the handlers run at the head of a round.
abbrev pub pending : World → List ℕ
pending w = out_of (w.kernel w.log signals)

-- If a fatal signal is among those that have come, now or before, the listening loop ends in this
-- very round with status 0, and has sent SIGKILL to just the pids that are listed, besides those
-- that it had sent one to before.
pub listen_round-fatal :
    (rounds fuel : ℕ) (listenfd pid : ℤ) (run : Run) (w : World)
    → are_signals (pending w) ≡ true
    → any_fatal (pending w) || ltb 0 run.flags.sig_fatal ≡ true
    → ((rounds_of (listen_round fuel listenfd) (suc rounds) run w).0 ≡ value (pos 0))
      × (killed pid (rounds_of (listen_round fuel listenfd) (suc rounds) run w).1.log
          ≡ has_pid pid run.conf.pids || killed pid w.log)
unfolding rounds_of
listen_round-fatal rounds fuel listenfd pid run w g h =
    let round = listen_round fuel listenfd in
    let last : World = (sys (close listenfd) (after_kills run.conf.pids w)).1 in
    let e : rounds_of round (suc rounds) run w ≡ (value (pos 0), last) =
      >>=-value (λ r. elim r [ returns v ↦ pure v | continues run' ↦ rounds_of round rounds run' ])
        (round run) w (returns (pos 0)) last
        (listen_round-ends fuel listenfd run w (handle_all-fatal (pending w) run.flags g ∙ h)) in
    (
      ap (λ r. r.0) e,
      ap (λ r. killed pid r.1.log) e ∙ killed-subproc_kill_all pid run.conf.pids (sys signals w).1,
    )
