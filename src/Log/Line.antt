-- ===== src/Log/Line.antt =====
-- log.c and log.h: the texts that `logLog` writes, one for each `dprintf`. What it asks of the C
-- library is an argument, and so is the message that `vdprintf` makes of its format.
use nsjail.Common.{
  ℕ, Bool, true, false, not, ◌&&◌, Option, none, some, List, [], ◌∷◌, ◌++◌, if◌then◌else◌,
}
use nsjail.Common.Text.{bytes, snprintf, concat, print_ℕ}
use nsjail.Os.{CString}
use nsjail.Log.{Log}

-- `enum llevel_t`
pub data LLevel : Type 0 where
  help help_bold debug info warning error fatal : LLevel

pub record LlT : Type 0 where
  pub descr : CString
  pub prefix : CString
  pub print_funcline : Bool

abbrev escape : CString → CString
escape sequence = 27 ∷ sequence

abbrev log_levels : LLevel → LlT
log_levels help = record {
  descr = bytes "HR";
  prefix = escape (bytes "[0m");
  print_funcline = false;
}
log_levels help_bold = record {
  descr = bytes "HB";
  prefix = escape (bytes "[1m");
  print_funcline = false;
}
log_levels debug = record {
  descr = bytes "D";
  prefix = escape (bytes "[0;4m");
  print_funcline = true;
}
log_levels info = record { descr = bytes "I"; prefix = escape (bytes "[1m"); print_funcline = true }
log_levels warning = record {
  descr = bytes "W";
  prefix = escape (bytes "[0;33m");
  print_funcline = true;
}
log_levels error = record {
  descr = bytes "E";
  prefix = escape (bytes "[1;31m");
  print_funcline = true;
}
log_levels fatal = record {
  descr = bytes "F";
  prefix = escape (bytes "[7;35m");
  print_funcline = true;
}

-- The line of the source that logs.
pub record Place : Type 0 where
  pub fn : CString
  pub ln : ℕ

-- What the C library answers: the time, none if `strftime` returns 0, the process and, for `errno`,
-- its text.
pub record Answers : Type 0 where
  pub stamp : Option CString
  pub pid : ℕ
  pub strerror : CString

abbrev is_debug : LLevel → Bool
is_debug debug = true
is_debug _ = false

abbrev timestr : Option CString → CString
timestr none = []
timestr (some text) = text

abbrev when : Bool → CString → List CString
when true text = text ∷ []
when false text = []

funcline : LlT → Place → Answers → CString
unfolding concat
funcline level place answers = concat (
    bytes "["
    ∷ timestr answers.stamp
    ∷ bytes "]["
    ∷ level.descr
    ∷ bytes "]["
    ∷ print_ℕ answers.pid
    ∷ bytes "] "
    ∷ place.fn
    ∷ bytes "():"
    ∷ print_ℕ place.ln
    ∷ bytes " "
    ∷ [])

-- What is written, and the status that the process exits with, if it does.
unfoldable pub log_log : Log → LLevel → Place → Bool → CString → Answers → List CString × Option ℕ
unfolding funcline
log_log log ll place perr message answers =
    let level = log_levels ll in
    if is_debug ll && not log.verbose then ([], none) else (
      when log.fd_isatty level.prefix
          ++ (when level.print_funcline (funcline level place answers)
              ++ (message
                  ∷ (when perr (bytes ": " ++ snprintf 512 answers.strerror)
                      ++ (when log.fd_isatty (escape (bytes "[0m")) ++ (10 ∷ []) ∷ [])))),
      (elim ll as (λ _. Option ℕ) [ fatal ↦ some 1 | _ ↦ none ]),
    )

-- The message of `logStop`, which it logs as information.
abbrev pub log_stop : ℕ → LLevel × CString
log_stop sig =
    (info, bytes "Server stops due to fatal signal (" ++ (print_ℕ sig ++ bytes ") caught. Exiting"))
