-- ===== src/Nsjail/Kept.antt =====
-- nsjail.c: the signals, the timer and the waiting execute no program.
use nsjail.Os.Quiet.{Quiet, quiet_rules}
use nsjail.Conf.{NsjConf}
use nsjail.Subproc.Kept.{subproc_kill_all-Quiet, subproc_display-Quiet}
use nsjail.Nsjail.{
  Flags, deliver, show_if_asked, nsjail_set_sig_handler, nsjail_set_sig_handlers, nsjail_set_timer,
  pause_round,
}

pub deliver-Quiet : (flags : Flags) → Quiet (deliver flags)
deliver-Quiet flags = search quiet_rules

pub show_if_asked-Quiet : (conf : NsjConf) (flags : Flags) → Quiet (show_if_asked conf flags)
unfolding show_if_asked
show_if_asked-Quiet conf flags = search (quiet_rules, deliver-Quiet, subproc_display-Quiet) depth 9

pub pause_round-Quiet : (conf : NsjConf) (flags : Flags) → Quiet (pause_round conf flags)
unfolding pause_round
pause_round-Quiet conf flags =
    search (quiet_rules, deliver-Quiet, show_if_asked-Quiet, subproc_kill_all-Quiet) depth 9

pub nsjail_set_sig_handlers-Quiet : Quiet nsjail_set_sig_handlers
unfolding nsjail_set_sig_handlers nsjail_set_sig_handler
nsjail_set_sig_handlers-Quiet = search quiet_rules depth 16

pub nsjail_set_timer-Quiet : (conf : NsjConf) → Quiet (nsjail_set_timer conf)
unfolding nsjail_set_timer
nsjail_set_timer-Quiet conf = search quiet_rules
