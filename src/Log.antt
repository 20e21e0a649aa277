-- ===== src/Log.antt =====
-- log.c: where the log goes.
pub mod Kept
pub mod Line
mod Tests
use nsjail.Common.{ℕ, Bool, true, false, not, ◌&&◌, Option, none, some, ◌==◌, if◌then◌else◌}
use nsjail.Common.Int.{ℤ, pos}
use nsjail.Common.Text.{bytes}
use nsjail.Os.{
  CString, open_file, isatty, Reply, fail, done, Action, pure, sys, failed, result_of, ◌>>=◌,
}
use nsjail.Conf.{NsjConf}

-- The static variables.
pub record Log : Type 0 where
  pub fd : ℤ
  pub fd_isatty : Bool
  pub verbose : Bool

-- Before `logInitLogFile`.
abbrev pub initial : Log
initial = record { fd = pos 2; fd_isatty = true; verbose = false }

abbrev pub is_tty : Reply → Bool
is_tty r = not (failed r) && result_of r == 1

-- O_CREAT | O_RDWR | O_APPEND
abbrev pub log_flags : ℕ
log_flags = 0o2102

log_to : Bool → ℤ → Action (Bool × Log)
log_to verbose fd = do
  r ← sys (isatty fd)
  pure (true, record { fd = fd; fd_isatty = is_tty r; verbose = verbose })

log_opened : Bool → Reply → Action (Bool × Log)
log_opened verbose (fail e) = pure (false, record initial { verbose = verbose })
log_opened verbose (done fd out) = log_to verbose (pos fd)

unfoldable pub log_init_log_file : NsjConf → Option CString → Bool → Action (Bool × Log)
unfolding log_to log_opened
log_init_log_file conf logfile is_verbose = elim logfile [
  | none ↦
      if conf.daemonize
      then sys (open_file (bytes "/var/log/nsjail.log") log_flags) >>= log_opened is_verbose
      else log_to is_verbose (pos 2)
  | some name ↦ sys (open_file name log_flags) >>= log_opened is_verbose
]
