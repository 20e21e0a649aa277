-- ===== src/Subproc/Child/Told.antt =====
-- subproc.c: a parent lets its child go on only once the child's cgroup and maps are set.
use mathlib.Core.Path.{subst}
use nsjail.Common.{ℕ, ◌≡◌, ◌∙◌, sym, ap, Bool, true, List, [], ◌∷◌, ◌++◌, ◌==◌}
use nsjail.Common.Int.{ℤ}
use nsjail.Os.{Event, World, value, Action, ◌>>◌, ◌and_then◌}
use nsjail.Os.Quiet.{added}
use nsjail.Os.Laws.{>>=-eq-value, >>=-value}
use nsjail.Os.Done.{Makes, Makes-second, and_then-true}
use nsjail.Conf.{NsjConf}
use nsjail.Util.{util_write_to_fd}
use nsjail.Util.Write.{written, util_write_to_fd-written}
use nsjail.Util.Kept.{util_write_to_fd-Quiet}
use nsjail.Cgroup.{cgroup_init_ns_from_parent}
use nsjail.Cgroup.Limited.{
  GroupedUnless, GroupedUnless-IsLasting, cgroup_init_ns_from_parent-GroupedUnless,
}
use nsjail.User.{user_init_ns_from_parent}
use nsjail.User.MapSet.{MappedIf}
use nsjail.User.Mapped.{user_init_ns_from_parent-MappedIf}
use nsjail.User.Kept.{user_init_ns_from_parent-Quiet}
use nsjail.Net.Parent.{net_init_ns_from_parent}
use nsjail.Subproc.Child.{or_exit, done_char, subproc_init_parent}
use nsjail.Subproc.Child.Sealed.{or_exit-Leaves}

-- `earlier` is the log when the parent begins to tell the child.
pub record IsTold (conf : NsjConf) (pid pipefd : ℤ) (log : List Event) : Type 0 where
  pub earlier : List Event
  pub telling : List Event
  pub calls : log ≡ telling ++ earlier
  pub grouped : GroupedUnless (conf.cgroup_mem_max == 0) conf pid earlier
  pub mapped : MappedIf conf.clone_newuser conf pid earlier
  pub told : written pipefd log ≡ written pipefd earlier ++ done_char ∷ []

module _ (fuel : ℕ) (conf : NsjConf) (pid pipefd : ℤ) where
  abbrev tell : Action Bool
  tell = util_write_to_fd fuel pipefd (done_char ∷ [])

  abbrev user_step : Action Bool
  user_step = user_init_ns_from_parent fuel conf pid

  abbrev cgroup_step : Action Bool
  cgroup_step = cgroup_init_ns_from_parent fuel conf pid

  abbrev Grouped : List Event → Type 0
  Grouped = GroupedUnless (conf.cgroup_mem_max == 0) conf pid

  tell-IsTold :
      (w : World)
      → Grouped w.log
      → MappedIf conf.clone_newuser conf pid w.log
      → (tell w).0 ≡ value true
      → IsTold conf pid pipefd (tell w).1.log
  tell-IsTold w g m h =
      let (telling, e) = added tell (util_write_to_fd-Quiet fuel pipefd (done_char ∷ [])) w in
      record {
        earlier = w.log;
        telling = telling;
        calls = e;
        grouped = g;
        mapped = m;
        told = util_write_to_fd-written fuel pipefd (done_char ∷ []) w h;
      }

  user_step-IsTold :
      (w : World)
      → Grouped w.log
      → ((user_step and_then tell) w).0 ≡ value true
      → IsTold conf pid pipefd ((user_step and_then tell) w).1.log
  user_step-IsTold w g h =
      let (first, e) = and_then-true user_step tell w h in
      let (new, q) = added user_step (user_init_ns_from_parent-Quiet fuel conf pid) w in
      subst (λ r. IsTold conf pid pipefd r.1.log) (sym e)
        (tell-IsTold (user_step w).1
          (subst Grouped (sym q)
            (GroupedUnless-IsLasting (conf.cgroup_mem_max == 0) conf pid new w.log g))
          ((user_init_ns_from_parent-MappedIf fuel conf pid).at w first)
          (ap (λ r. r.0) (sym e) ∙ h))

  cgroup_step-IsTold :
      Makes (IsTold conf pid pipefd) (or_exit cgroup_step >> (user_step and_then tell))
  cgroup_step-IsTold = record {
    at = λ w h.
        let rest : Unit {0} → Action Bool = λ _. user_step and_then tell in
        let (a, first, second) = >>=-eq-value rest true (or_exit cgroup_step) w h in
        subst (λ r. IsTold conf pid pipefd r.1.log)
          (sym (
            >>=-value rest (or_exit cgroup_step) w a (or_exit cgroup_step w).1
              (ap (λ r. (r, (or_exit cgroup_step w).1)) first)))
          (user_step-IsTold (or_exit cgroup_step w).1
            ((or_exit-Leaves Grouped cgroup_step
                (cgroup_init_ns_from_parent-GroupedUnless fuel conf pid)).at
              w a first)
            second);
  }

-- If `subprocInitParent` returns true, it has told the child to go on, with the one byte that the
-- child waits for, and before that byte it had filled the files of the child's memory cgroup, if
-- there is a limit, and had set both maps of the child's user namespace, if it has one: a map was
-- written to its file, or the helper that sets it ended with status 0. For that namespace it had
-- also written "deny" to the child's setgroups file, unless it was root.
pub subproc_init_parent-IsTold :
    (fuel : ℕ) (conf : NsjConf) (pid pipefd : ℤ) (w : World)
    → (subproc_init_parent fuel conf pid pipefd w).0 ≡ value true
    → IsTold conf pid pipefd (subproc_init_parent fuel conf pid pipefd w).1.log
unfolding subproc_init_parent
subproc_init_parent-IsTold fuel conf pid pipefd w h =
    (Makes-second (IsTold conf pid pipefd) (net_init_ns_from_parent fuel conf pid) _
        (cgroup_step-IsTold fuel conf pid pipefd)).at
      w h
