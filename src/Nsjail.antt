-- ===== src/Nsjail.antt =====
-- nsjail.c: the program. A signal comes at any time: what has come since the flags were last looked
-- at is an answer of the kernel, and the handler runs for each signal of it.
mod Tests
pub mod Loops
pub mod Kept
pub mod Guarded
pub mod Whole
pub mod Signals
pub mod Standalone
pub mod Limit
use nsjail.Common.{
  ℕ, zero, suc, Bool, true, false, not, ◌&&◌, Option, none, some, List, [], ◌∷◌, ltb, ◌==◌,
  if◌then◌else◌,
}
use nsjail.Common.Int.{ℤ, pos, negsuc}
use nsjail.Os.{
  CString, signals, sigaction, setitimer, daemon, geteuid, pause, close, Action, pure, exit,
  out_of_fuel, sys, succeeds, out_of, ◌>>=◌, ◌>>◌, ◌and_then◌,
}
use nsjail.Conf.{NsjConf, NsMode, standalone_once, is_execve, is_listen_tcp}
use nsjail.Net.{net_accept_conn}
use nsjail.Net.Listen.{net_get_recv_socket}
use nsjail.Subproc.{subproc_count, subproc_reap, subproc_kill_all, subproc_display}
use nsjail.Subproc.Child.{subproc_run_child}
use nsjail.Cmdline.{cmdline_parse}
use nsjail.Cmdline.Loop.{Opt}

-- `nsjailSigFatal` and `nsjailShowProc`
pub record Flags : Type 0 where
  pub sig_fatal : ℕ
  pub show_proc : Bool

-- SIGALRM is 14, SIGCHLD is 17, SIGUSR1 is 10.
unfoldable pub nsjail_sig : ℕ → Flags → Flags
nsjail_sig sig flags =
    if sig == 14
    then flags
    else if sig == 17
    then flags
    else if sig == 10
    then record flags { show_proc = true }
    else record flags { sig_fatal = sig }

unfoldable pub handle_all : List ℕ → Flags → Flags
handle_all [] flags = flags
handle_all (sig ∷ sigs) flags = handle_all sigs (nsjail_sig sig flags)

abbrev pub deliver : Flags → Action Flags
deliver flags = do r ← sys signals; pure (handle_all (out_of r) flags)

unfoldable pub nsjail_set_sig_handler : ℕ → Action Bool
nsjail_set_sig_handler sig = succeeds (sigaction sig)

-- SIGINT is 2, SIGTERM is 15.
unfoldable pub nsjail_set_sig_handlers : Action Bool
nsjail_set_sig_handlers =
    nsjail_set_sig_handler 2
    and_then nsjail_set_sig_handler 10
    and_then nsjail_set_sig_handler 14
    and_then nsjail_set_sig_handler 17
    and_then nsjail_set_sig_handler 15

unfoldable pub nsjail_set_timer : NsjConf → Action Bool
nsjail_set_timer conf = if is_execve conf.mode then pure true else succeeds setitimer

-- What the main loops keep.
pub record Run : Type 0 where
  pub conf : NsjConf
  pub flags : Flags

-- How a round of a loop ends.
pub data Round : Type 0 where
  returns : ℤ → Round
  continues : Run → Round

-- `if (nsjailShowProc == true) { ... }`, with the signals that come in between.
pub show_if_asked : NsjConf → Flags → Action Flags
show_if_asked conf flags = do
  f ← deliver flags
  if f.show_proc
      then (do f' ← deliver f; subproc_display conf; pure (record f' { show_proc = false }))
      else pure f

pub serve : ℕ → NsjConf → Option ℕ → Action NsjConf
serve fuel conf none = pure conf
serve fuel conf (some fd) = do
  conf' ← subproc_run_child fuel conf (pos fd) (pos fd) (pos fd)
  sys (close (pos fd))
  pure conf'

pub accept_round : ℕ → ℤ → NsjConf → Flags → Action Round
unfolding show_if_asked serve
accept_round fuel listenfd conf flags = do
  f ← show_if_asked conf flags
  conn ← net_accept_conn listenfd
  conf' ← serve fuel conf conn
  s ← subproc_reap fuel fuel conf'
  pure (continues (record { conf = s.0; flags = f }))

unfoldable pub listen_round : ℕ → ℤ → Run → Action Round
unfolding accept_round
listen_round fuel listenfd run = do
  f ← deliver run.flags
  if ltb 0 f.sig_fatal
      then (do subproc_kill_all run.conf.pids; sys (close listenfd); pure (returns (pos 0)))
      else accept_round fuel listenfd run.conf f

pub pause_round : NsjConf → Flags → Action Round
unfolding show_if_asked
pause_round conf flags = do
  f ← show_if_asked conf flags
  f' ← deliver f
  if ltb 0 f'.sig_fatal
      then (do subproc_kill_all conf.pids; pure (returns (negsuc 0)))
      else (do sys pause; pure (continues (record { conf = conf; flags = f' })))

abbrev pub is_once : NsMode → Bool
is_once standalone_once = true
is_once _ = false

-- After `subprocReap`.
pub after_reap : ℕ → Flags → NsjConf → ℕ → Action Round
unfolding pause_round
after_reap fuel flags conf status =
    if subproc_count conf == 0
    then if is_once conf.mode then pure (returns (pos status)) else (do
      conf' ← subproc_run_child fuel conf (pos 0) (pos 1) (pos 2)
      pure (continues (record { conf = conf'; flags = flags })))
    else pause_round conf flags

unfoldable pub standalone_round : ℕ → Run → Action Round
unfolding after_reap
standalone_round fuel run = do
  s ← subproc_reap fuel fuel run.conf
  after_reap fuel run.flags s.0 s.1

-- A loop of rounds, at most `rounds` of them.
unfoldable pub rounds_of : (Run → Action Round) → ℕ → Run → Action ℤ
rounds_of round zero run = out_of_fuel
rounds_of round (suc rounds) run = do
  r ← round run
  elim r [ returns v ↦ pure v | continues run' ↦ rounds_of round rounds run' ]

unfoldable pub nsjail_listen_mode : ℕ → ℕ → NsjConf → Flags → Action ℤ
nsjail_listen_mode rounds fuel conf flags = do
  sock ← net_get_recv_socket conf.bindhost conf.port
  elim sock [
    | none ↦ pure (pos 0)
    | some fd ↦
        rounds_of (listen_round fuel (pos fd)) rounds (record { conf = conf; flags = flags })
  ]

unfoldable pub nsjail_standalone_mode : ℕ → ℕ → NsjConf → Flags → Action ℤ
nsjail_standalone_mode rounds fuel conf flags = do
  conf' ← subproc_run_child fuel conf (pos 0) (pos 1) (pos 2)
  rounds_of (standalone_round fuel) rounds (record { conf = conf'; flags = flags })

abbrev pub unless_exit : ℕ → Action Bool → Action (Unit {0})
unless_exit code m = do ok ← m; if ok then pure tt else exit code

-- `nsjailSigFatal` and `nsjailShowProc` begin as 0 and false.
pub run_mode : ℕ → ℕ → NsjConf → Action ℤ
run_mode rounds fuel conf =
    let flags : Flags = record { sig_fatal = 0; show_proc = false } in
    if is_listen_tcp conf.mode
    then nsjail_listen_mode rounds fuel conf flags
    else nsjail_standalone_mode rounds fuel conf flags

-- `main`, with what `getopt_long` finds and the arguments behind. What it returns is the program's
-- status.
unfoldable pub main : ℕ → ℕ → List Opt → List CString → Action ℤ
unfolding run_mode
main rounds fuel opts argv = do
  s ← cmdline_parse opts argv
  unless_exit 1 (pure s.0)
  (if s.1.clone_newuser then pure tt else sys geteuid >> pure tt)
  unless_exit 1 (if s.1.daemonize then succeeds daemon else pure true)
  unless_exit 1 nsjail_set_sig_handlers
  unless_exit 1 (nsjail_set_timer s.1)
  run_mode rounds fuel s.1
