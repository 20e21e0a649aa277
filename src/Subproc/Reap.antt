-- ===== src/Subproc/Reap.antt =====
-- subproc.c: what `subprocReap` reports, and what it does to the list of children.
use nsjail.Common.{
  ℕ, ◌<◌, ◌≡◌, ◌↔◌, refl, ◌∙◌, true, false, Bool, ◌||◌, some, arith, if◌then◌else◌, inl, inr,
  Bool-cases,
}
use nsjail.Common.Int.{ℤ}
use nsjail.Os.{World, value, ◌>>=◌}
use nsjail.Os.Laws.{>>=-value}
use nsjail.Conf.{NsjConf, PidElem}
use nsjail.Subproc.{
  get_pid_elem, subproc_remove, wifexited, wexitstatus, wifsignaled, rv_of_exit, rv_of_signal,
  remove_if, note_status,
}
use nsjail.Subproc.Table.{IsDistinct, IsRemoved, subproc_remove-IsRemoved}

-- The number that is reported for an exit lies below 100 and is 0 exactly if the exit status is.
rv_of_exit_bounds :
    (status : ℕ) → (rv_of_exit status < 100) × ((rv_of_exit status ≡ 0) ↔ (wexitstatus status ≡ 0))
unfolding rv_of_exit
rv_of_exit_bounds status = (ground arith, ((λ h. ground arith), (λ h. ground arith)))

-- The number that is reported for a signal tells the signal, and differs from every exit's.
rv_of_signal_bounds :
    (status other : ℕ)
    → wifsignaled status ≡ true
    → (100 < rv_of_signal status)
      × (rv_of_signal status < 227)
      × (rv_of_exit other < rv_of_signal status)
unfolding rv_of_signal
rv_of_signal_bounds status other h =
    let (b, _) = rv_of_exit_bounds other in (ground arith, ground arith, ground arith)

-- The number that is reported tells how a child has ended: for an exit it lies below 100 and is 0
-- exactly if the exit status is, and for a signal it lies from 101 to 226, above every exit's.
pub rv_of_bounds :
    (status other : ℕ)
    → wifsignaled status ≡ true
    → (rv_of_exit other < 100)
      × ((rv_of_exit other ≡ 0) ↔ (wexitstatus other ≡ 0))
      × (100 < rv_of_signal status)
      × (rv_of_signal status < 227)
rv_of_bounds status other h =
    let (low, zero_iff) = rv_of_exit_bounds other in
    let (above, below, _) = rv_of_signal_bounds status other h in (low, zero_iff, above, below)

abbrev pub has_ended : ℕ → Bool
has_ended status = wifexited status || wifsignaled status

abbrev pub rv_of : ℕ → ℕ
rv_of status = if wifexited status then rv_of_exit status else rv_of_signal status

-- The action ends as `subprocRemove` does, with `v`.
remove_if-true :
    (conf conf' : NsjConf) (pid : ℤ) (v rv : ℕ) (w : World)
    → (subproc_remove conf pid w).0 ≡ value conf'
    → remove_if true conf pid v rv w ≡ (value (conf', v), (subproc_remove conf pid w).1)
unfolding remove_if
remove_if-true conf conf' pid v rv w h = rw (h, ◌>>=◌) refl

remove_if-false :
    (conf : NsjConf) (pid : ℤ) (v rv : ℕ) (w : World)
    → remove_if false conf pid v rv w ≡ (value (conf, rv), w)
unfolding remove_if
remove_if-false conf pid v rv w = refl

note_status_lem :
    (conf conf' : NsjConf) (pid : ℤ) (status rv : ℕ) (w : World)
    → has_ended status ≡ true
    → (subproc_remove conf pid w).0 ≡ value conf'
    → note_status conf pid status rv w
      ≡ (value (conf', rv_of status), (subproc_remove conf pid w).1)
unfolding note_status
note_status_lem conf conf' pid status rv w e h = elim (Bool-cases (wifexited status)) [
  | inl x ↦
      let n : wifsignaled status ≡ false = ground arith in
      >>=-value {A = NsjConf × ℕ}
        (λ s. remove_if (wifsignaled status) s.0 pid (rv_of_signal status) s.1)
        (remove_if (wifexited status) conf pid (rv_of_exit status) rv) w (conf', rv_of_exit status)
        (subproc_remove conf pid w).1
        (rw x (remove_if-true conf conf' pid (rv_of_exit status) rv w h))
      ∙ rw (n, x)
          (remove_if-false conf' pid (rv_of_signal status) (rv_of_exit status)
            (subproc_remove conf pid w).1)
  | inr x ↦
      let y : wifsignaled status ≡ true = ground arith in
      >>=-value {A = NsjConf × ℕ}
        (λ s. remove_if (wifsignaled status) s.0 pid (rv_of_signal status) s.1)
        (remove_if (wifexited status) conf pid (rv_of_exit status) rv) w (conf, rv) w
        (rw x (remove_if-false conf pid (rv_of_exit status) rv w))
      ∙ rw (y, x) (remove_if-true conf conf' pid (rv_of_signal status) rv w h)
]

-- On a list of distinct pids, a child whose wait status says that it has ended is removed as
-- `subprocRemove` does, whichever way it has ended, and `rv` is the number of its exit or signal.
pub note_status-IsRemoved :
    (conf : NsjConf) (pid : ℤ) (p : PidElem) (status rv : ℕ) (w : World)
    → IsDistinct conf.pids
    → get_pid_elem pid conf.pids ≡ some p
    → has_ended status ≡ true
    → (conf' : NsjConf) × ((note_status conf pid status rv w).0 ≡ value (conf', rv_of status))
      × IsRemoved conf pid p w conf' (note_status conf pid status rv w).1
note_status-IsRemoved conf pid p status rv w d h e =
    let (conf', v, removed) = subproc_remove-IsRemoved conf pid p w d h in
    let same = note_status_lem conf conf' pid status rv w e v in
    (conf', rw same refl, rw same removed)
