-- ===== src/User/Groups.antt =====
-- user.c: whether the child of a parent that is not root may drop groups.
use mathlib.Core.List.{append_assoc}
use nsjail.Common.{
  ℕ, zero, suc, ◌≡◌, refl, sym, ap, ◌∙◌, Bool, true, false, List, [], ◌∷◌, ◌++◌, arith,
  if◌then◌else◌,
}
use nsjail.Common.Int.{ℤ}
use nsjail.Common.Text.{bytes}
use nsjail.Os.{Event, World, geteuid, Reply, fail, done, value, Action, pure}
use nsjail.Os.Done.{Makes, IsLasting}
use nsjail.Cgroup.{o_wronly}
use nsjail.Util.{util_write_buf_to_file}
use nsjail.Util.Put.{IsPut, IsPut-IsLasting, util_write_buf_to_file-IsPut}
use nsjail.User.{is_zero, proc_file, user_set_groups}

-- The parent is root, so that the kernel takes any map, or "deny" is in the child's file.
pub data GroupsDenied (pid : ℤ) (log : List Event) : Type 0 where
  by_root :
      (out : List ℕ) (earlier later : List Event)
      → log ≡ later ++ (geteuid, done 0 out) ∷ earlier
      → GroupsDenied pid log
  by_file :
      IsPut (proc_file pid (bytes "setgroups")) o_wronly (bytes "deny") log → GroupsDenied pid log

pub GroupsDenied-IsLasting : (pid : ℤ) → IsLasting (GroupsDenied pid)
GroupsDenied-IsLasting pid new log (by_root out earlier later e) =
    by_root out earlier (new ++ later) (ap (λ l. new ++ l) e ∙ sym (append_assoc new later _))
GroupsDenied-IsLasting pid new log (by_file p) = by_file (IsPut-IsLasting _ _ _ new log p)

-- If `userSetGroups` returns true, one of the two is so.
pub user_set_groups-GroupsDenied :
    (fuel : ℕ) (pid : ℤ) → Makes (GroupsDenied pid) (user_set_groups fuel pid)
unfolding user_set_groups
user_set_groups-GroupsDenied fuel pid = record {
  at = λ w h. asked (w.kernel w.log geteuid) (is_zero (w.kernel w.log geteuid)) w refl h;
}
  where
    deny : Action Bool
    deny = util_write_buf_to_file fuel (proc_file pid (bytes "setgroups")) (bytes "deny") o_wronly

    asked :
        (r : Reply) (b : Bool) (w : World)
        → is_zero r ≡ b
        → ((if b then pure true else deny) (record w { log = (geteuid, r) ∷ w.log })).0 ≡ value true
        → GroupsDenied pid
            ((if b then pure true else deny) (record w { log = (geteuid, r) ∷ w.log })).1.log
    asked r false w z h = by_file (
        (util_write_buf_to_file-IsPut fuel (proc_file pid (bytes "setgroups")) (bytes "deny")
            o_wronly).at
          (record w { log = (geteuid, r) ∷ w.log }) h)
    asked (fail e) true w z h = absurd (ground arith)
    asked (done zero out) true w z h = by_root out w.log [] refl
    asked (done (suc n) out) true w z h = absurd (ground arith)
