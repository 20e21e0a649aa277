-- ===== src/Util/Dirs/Kept.antt =====
-- util.c: making directories undoes no call that was made before.
use nsjail.Common.{ℕ, zero, suc, true, false, Option, none, some, [], ◌∷◌}
use nsjail.Common.Int.{pos}
use nsjail.Os.{CString, close, Reply, fail, done, pure, sys, ◌>>=◌, ◌>>◌}
use nsjail.Os.Quiet.{Quiet, Quiet-pure, Quiet-out_of_fuel, Quiet-bind, quiet_rules}
use nsjail.Util.Dirs.{
  component, skip_slashes, close_and, enter_dir, create_loop, util_create_dir_recursively,
}

opened-Quiet :
    (prev : ℕ) (r : Reply)
    → Quiet {A = Option ℕ} (elim r [
      | fail e ↦ sys (close (pos prev)) >> pure none
      | done fd out ↦ sys (close (pos prev)) >> pure (some fd)
    ])
opened-Quiet prev (fail e) = search quiet_rules
opened-Quiet prev (done fd out) = search quiet_rules

enter_dir-Quiet : (prev : ℕ) (name : CString) → Quiet (enter_dir prev name)
unfolding enter_dir
enter_dir-Quiet prev name = search (quiet_rules, opened-Quiet)

create_loop-Quiet : (fuel prev : ℕ) (curr : CString) → Quiet (create_loop fuel prev curr)
unfolding create_loop
create_loop-Quiet zero prev curr = Quiet-out_of_fuel
create_loop-Quiet (suc fuel) prev curr = go (component (skip_slashes curr)) (create_loop-Quiet fuel)
  where
    entered :
        (rest : CString)
        → ((prev : ℕ) (curr : CString) → Quiet (create_loop fuel prev curr))
        → (next : Option ℕ)
        → Quiet (elim next [ none ↦ pure false | some fd ↦ create_loop fuel fd rest ])
    entered rest ih none = Quiet-pure false
    entered rest ih (some fd) = ih fd rest

    go :
        (found : Option (CString × CString))
        → ((prev : ℕ) (curr : CString) → Quiet (create_loop fuel prev curr))
        → Quiet (elim found [
          | none ↦ close_and true prev
          | some (name, rest) ↦ do
            next ← enter_dir prev name
            elim next [ none ↦ pure false | some fd ↦ create_loop fuel fd rest ]
        ])
    go none ih = search quiet_rules
    go (some (name, rest)) ih =
        Quiet-bind (enter_dir prev name) _ (enter_dir-Quiet prev name) (entered rest ih)

started-Quiet :
    (fuel : ℕ) (path : CString) (r : Reply)
    → Quiet (elim r [ fail e ↦ pure false | done fd out ↦ create_loop fuel fd path ])
started-Quiet fuel path (fail e) = Quiet-pure false
started-Quiet fuel path (done fd out) = create_loop-Quiet fuel fd path

pub util_create_dir_recursively-Quiet : (dir : CString) → Quiet (util_create_dir_recursively dir)
unfolding util_create_dir_recursively
util_create_dir_recursively-Quiet [] = Quiet-pure false
util_create_dir_recursively-Quiet (c ∷ dir) = search (quiet_rules, started-Quiet)
