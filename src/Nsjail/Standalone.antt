-- ===== src/Nsjail/Standalone.antt =====
-- nsjail.c: with what status the standalone loop ends.
use nsjail.Common.{ℕ, ◌≡◌, ◌≢◌, true, []}
use nsjail.Common.Int.{ℤ, pos, negsuc}
use nsjail.Os.{Outcome, World, value}
use nsjail.Os.Ensures.{Ensures}
use nsjail.Conf.{NsjConf}
use nsjail.Subproc.{subproc_reap}
use nsjail.Nsjail.{Run, Round, returns, continues, is_once, standalone_round}

-- How the loop ends that begins with this state in this world. Either this round ends it: by a fatal
-- signal while children are left, or, in a jail that is to run once, when `subprocReap` leaves no
-- child, with the status that it returns. Or a later round does.
pub data Ends (fuel : ℕ) (conf : NsjConf) : Run → World → ℤ → Type 0 where
  signalled :
      {run : Run} {w : World} (left : NsjConf) (status : ℕ)
      → (subproc_reap fuel fuel run.conf w).0 ≡ value (left, status)
      → left.pids ≢ []
      → Ends fuel conf run w (negsuc 0)
  finished :
      {run : Run} {w : World} (left : NsjConf) (status : ℕ)
      → (subproc_reap fuel fuel run.conf w).0 ≡ value (left, status)
      → left.pids ≡ []
      → is_once conf.mode ≡ true
      → Ends fuel conf run w (pos status)
  later :
      {run next : Run} {w : World} {v : ℤ}
      → (standalone_round fuel run w).0 ≡ value (continues next)
      → Ends fuel conf next (standalone_round fuel run w).1 v
      → Ends fuel conf run w v

abbrev of_value : ℤ → Outcome ℤ → ℤ
of_value d (value v) = v
of_value d _ = d

module _ (fuel : ℕ) (conf : NsjConf) where
  -- A round ends the loop in one of these ways, or keeps the mode.
  abbrev RoundEnds : Run → World → Round → Type 0
  RoundEnds run w (returns v) = Ends fuel conf run w v
  RoundEnds run w (continues next) = next.conf.mode ≡ conf.mode
