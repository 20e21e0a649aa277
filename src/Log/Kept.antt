-- ===== src/Log/Kept.antt =====
-- log.c: opening the log executes no program.
use nsjail.Common.{Bool, Option, none, some}
use nsjail.Common.Int.{ℤ, pos}
use nsjail.Os.{CString, Reply, fail, done}
use nsjail.Os.Quiet.{Quiet, quiet_rules}
use nsjail.Conf.{NsjConf}
use nsjail.Log.{log_to, log_opened, log_init_log_file}

log_to-Quiet : (verbose : Bool) (fd : ℤ) → Quiet (log_to verbose fd)
unfolding log_to
log_to-Quiet verbose fd = search quiet_rules

log_opened-Quiet : (verbose : Bool) (r : Reply) → Quiet (log_opened verbose r)
unfolding log_opened
log_opened-Quiet verbose (fail e) = search quiet_rules
log_opened-Quiet verbose (done fd out) = log_to-Quiet verbose (pos fd)

pub log_init_log_file-Quiet :
    (conf : NsjConf) (logfile : Option CString) (is_verbose : Bool)
    → Quiet (log_init_log_file conf logfile is_verbose)
unfolding log_init_log_file
log_init_log_file-Quiet conf none is_verbose = search (quiet_rules, log_opened-Quiet, log_to-Quiet)
log_init_log_file-Quiet conf (some name) is_verbose = search (quiet_rules, log_opened-Quiet)
