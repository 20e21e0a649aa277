-- ===== src/Subproc/Table.antt =====
-- subproc.c: the list of children as a table from pids.
use nsjail.Common.{
  ◌+◌, ◌≡◌, refl, ◌∙◌, true, false, none, some, List, [], ◌∷◌, arith, if◌then◌else◌,
}
use nsjail.Common.Int.{ℤ, eq_ℤ}
use nsjail.Os.{World, value, close}
use nsjail.Conf.{NsjConf, PidElem}
use nsjail.Subproc.{get_pid_elem, without_pid, subproc_remove, count_pids, subproc_count}

pub eq_ℤ-trans : (a b c : ℤ) → eq_ℤ a b ≡ true → eq_ℤ b c ≡ eq_ℤ a c
eq_ℤ-trans a b c h = ground arith

-- No two children have one pid.
abbrev pub IsDistinct : List PidElem → Type 0
IsDistinct [] = Unit {0}
IsDistinct (p ∷ pids) = (get_pid_elem p.pid pids ≡ none) × IsDistinct pids

get_pid_elem-eq :
    (a b : ℤ) (pids : List PidElem) → eq_ℤ a b ≡ true → get_pid_elem a pids ≡ get_pid_elem b pids
unfolding get_pid_elem
get_pid_elem-eq a b [] h = refl
get_pid_elem-eq a b (p ∷ pids) h = ground (arith, get_pid_elem-eq a b pids h)

pub get_pid_elem-without_pid :
    (pid q : ℤ) (pids : List PidElem)
    → IsDistinct pids
    → get_pid_elem q (without_pid pid pids) ≡ (if eq_ℤ pid q then none else get_pid_elem q pids)
unfolding get_pid_elem without_pid
get_pid_elem-without_pid pid q [] h = ground arith
get_pid_elem-without_pid pid q (p ∷ pids) h =
    ground (arith, get_pid_elem-without_pid pid q pids h.1, get_pid_elem-eq p.pid q pids)

pub without_pid-IsDistinct :
    (pid : ℤ) (pids : List PidElem) → IsDistinct pids → IsDistinct (without_pid pid pids)
unfolding without_pid
without_pid-IsDistinct pid [] h = tt
without_pid-IsDistinct pid (p ∷ pids) h =
    ground (arith, without_pid-IsDistinct pid pids h.1, get_pid_elem-without_pid pid p.pid pids h.1)

count_pids-without_pid :
    (pid : ℤ) (pids : List PidElem) (p : PidElem)
    → get_pid_elem pid pids ≡ some p
    → count_pids (without_pid pid pids) + 1 ≡ count_pids pids
unfolding count_pids get_pid_elem without_pid
count_pids-without_pid pid [] p h = absurd (ground arith)
count_pids-without_pid pid (x ∷ pids) p h = ground (arith, count_pids-without_pid pid pids p)

-- What `subprocRemove` has done for a child that the list has.
pub record IsRemoved (conf : NsjConf) (pid : ℤ) (p : PidElem) (w : World) (conf' : NsjConf)
    (w' : World) : Type 0 where
  pub gone : get_pid_elem pid conf'.pids ≡ none
  pub others : (q : ℤ) → eq_ℤ pid q ≡ false → get_pid_elem q conf'.pids ≡ get_pid_elem q conf.pids
  pub one_less : subproc_count conf' + 1 ≡ subproc_count conf
  pub distinct : IsDistinct conf'.pids
  pub closed : w'.log ≡ (close p.pid_syscall_fd, w.kernel w.log (close p.pid_syscall_fd)) ∷ w.log

-- On a list of distinct pids that has the pid, `subprocRemove` removes that child and no other,
-- counts one less, keeps the pids distinct and closes the child's descriptor, and nothing else.
pub subproc_remove-IsRemoved :
    (conf : NsjConf) (pid : ℤ) (p : PidElem) (w : World)
    → IsDistinct conf.pids
    → get_pid_elem pid conf.pids ≡ some p
    → (conf' : NsjConf) × ((subproc_remove conf pid w).0 ≡ value conf')
      × IsRemoved conf pid p w conf' (subproc_remove conf pid w).1
unfolding subproc_remove subproc_count
subproc_remove-IsRemoved conf pid p w d h = (
  record conf { pids = without_pid pid conf.pids },
  rw h refl,
  record {
    gone = get_pid_elem-without_pid pid pid conf.pids d ∙ self;
    others = λ q ne. get_pid_elem-without_pid pid q conf.pids d ∙ (rw ne refl);
    one_less = count_pids-without_pid pid conf.pids p h;
    distinct = without_pid-IsDistinct pid conf.pids d;
    closed = rw h refl;
  },
)
  where
    self : (if eq_ℤ pid pid then none else get_pid_elem pid conf.pids) ≡ none
    self = ground arith
