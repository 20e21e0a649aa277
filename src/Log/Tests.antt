-- ===== src/Log/Tests.antt =====
-- Lines of the log.
use nsjail.Common.{◌≡◌, refl, false, true, none, some, [], ◌∷◌}
use nsjail.Common.Text.{bytes, print_ℕ}
use nsjail.Log.{initial}
use nsjail.Log.Line.{debug, warning, fatal, Place, Answers, log_log}

abbrev place : Place
place = record { fn = bytes "main"; ln = 7 }

abbrev answers : Answers
answers = record { stamp = some (bytes "T"); pid = 42; strerror = bytes "No such file" }

-- To a file, with the text of errno.
warned :
    log_log (record initial { fd_isatty = false }) warning place true (bytes "open") answers
    ≡ (bytes "[T][W][42] main():7 " ∷ bytes "open" ∷ bytes ": No such file" ∷ bytes "\n" ∷ [], none)
unfolding log_log print_ℕ
warned = refl

-- To a terminal; the process ends.
fatal_ends : log_log initial fatal place false (bytes "die") (record answers { stamp = none }) ≡ (
  bytes "\u{1b}[7;35m"
      ∷ bytes "[][F][42] main():7 "
      ∷ bytes "die"
      ∷ bytes "\u{1b}[0m"
      ∷ bytes "\n"
      ∷ [],
  some 1,
)
unfolding log_log print_ℕ
fatal_ends = refl

debug_unheard : log_log initial debug place false (bytes "x") answers ≡ ([], none)
unfolding log_log
debug_unheard = refl
