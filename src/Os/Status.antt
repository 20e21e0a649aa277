-- ===== src/Os/Status.antt =====
-- The macros of <sys/wait.h>.
use nsjail.Common.{ℕ, ◌/◌, ◌%◌, Bool, not, ◌&&◌, ◌==◌}

abbrev pub wifexited : ℕ → Bool
wifexited status = status % 128 == 0

abbrev pub wexitstatus : ℕ → ℕ
wexitstatus status = status / 256 % 256

abbrev pub wifsignaled : ℕ → Bool
wifsignaled status = not (status % 128 == 0) && not (status % 128 == 127)

abbrev pub wtermsig : ℕ → ℕ
wtermsig status = status % 128
