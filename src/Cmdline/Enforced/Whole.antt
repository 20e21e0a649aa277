-- ===== src/Cmdline/Enforced/Whole.antt =====
-- cmdline.c and contain.c: the limits of the command line are those that are put in force.
use nsjail.Common.{ℕ, ◌≡◌, Bool, Option, List}
use nsjail.Os.{CString, Kernel}
use nsjail.Os.Ensures.{Ensures}
use nsjail.Os.Under.{Under}
use nsjail.Conf.{NsjConf}
use nsjail.Cmdline.Switch.{Parse}
use nsjail.Cmdline.Enforced.{Limit, limits}
use nsjail.Cmdline.Enforced.Steps.{Sets}

module _ (ns : List ℕ) where
  -- What a function returns with has these limits.
  abbrev Kept : Bool × NsjConf → Type 0
  Kept r = limits r.1 ≡ ns

module _ (k : Kernel) (l : Limit) where
  abbrev SetsIn : Option CString → Parse → Type 0
  SetsIn given p = Sets k l given p.conf
