-- ===== src/Subproc/Deadline.antt =====
-- subproc.c: whom the parent kills.
use nsjail.Common.{
  ◌≡◌, refl, sym, ◌∙◌, true, false, Bool, not, ◌&&◌, ◌||◌, List, [], ◌∷◌, arith, ◌==◌, inl, inr,
  Bool-cases,
}
use nsjail.Common.Int.{ℤ, pos, negsuc, eq_ℤ, leb_ℤ, ◌-ℤ◌, ◌+ℤ◌}
use nsjail.Os.{World, Event, Syscall, kill}
use nsjail.Conf.{NsjConf, PidElem}
use nsjail.Subproc.{overdue, kill_overdue, subproc_kill_all}

-- Whether SIGKILL has been sent to `pid`.
abbrev pub is_kill_of : ℤ → Event → Bool
is_kill_of pid (kill q sig, r) = eq_ℤ q pid && sig == 9
is_kill_of pid e = false

abbrev pub killed : ℤ → List Event → Bool
killed pid [] = false
killed pid (e ∷ log) = is_kill_of pid e || killed pid log

-- The clock has come to the time at which the child's limit ends.
abbrev pub reached : NsjConf → ℤ → PidElem → Bool
reached conf now p = leb_ℤ (p.start +ℤ conf.tlimit) now

-- Whether the list has a child of that pid that has had its time.
abbrev pub has_overdue : NsjConf → ℤ → ℤ → List PidElem → Bool
has_overdue conf now pid [] = false
has_overdue conf now pid (p ∷ pids) =
    eq_ℤ p.pid pid && reached conf now p || has_overdue conf now pid pids

abbrev pub has_pid : ℤ → List PidElem → Bool
has_pid pid [] = false
has_pid pid (p ∷ pids) = eq_ℤ p.pid pid || has_pid pid pids

leb_sub : (t n s : ℤ) → leb_ℤ t (n -ℤ s) ≡ leb_ℤ (s +ℤ t) n
leb_sub (pos t) (pos n) (pos s) = ground arith
leb_sub (pos t) (pos n) (negsuc s) = ground arith
leb_sub (pos t) (negsuc n) (pos s) = ground arith
leb_sub (pos t) (negsuc n) (negsuc s) = ground arith
leb_sub (negsuc t) (pos n) (pos s) = ground arith
leb_sub (negsuc t) (pos n) (negsuc s) = ground arith
leb_sub (negsuc t) (negsuc n) (pos s) = ground arith
leb_sub (negsuc t) (negsuc n) (negsuc s) = ground arith

overdue-reached : (conf : NsjConf) (now : ℤ) (p : PidElem) → overdue conf now p ≡ reached conf now p
overdue-reached conf now p = leb_sub conf.tlimit now p.start

abbrev after_call : Syscall → World → World
after_call c w = record w { log = (c, w.kernel w.log c) ∷ w.log }

abbrev after_kills : PidElem → World → World
after_kills p w = after_call (kill p.pid 9) (after_call (kill p.pid 18) w)

killed_late :
    (mine rest before : Bool) {after : Bool}
    → after ≡ (rest || (mine && true || (mine && false || before)))
    → after ≡ ((mine && true || rest) || before)
killed_late true true before h = h
killed_late true false before h = h
killed_late false true before h = h
killed_late false false before h = h

killed_early :
    (mine rest before : Bool) {after : Bool}
    → after ≡ (rest || before)
    → after ≡ ((mine && false || rest) || before)
killed_early true rest before h = h
killed_early false rest before h = h

-- The second loop of `subprocReap` sends SIGKILL to exactly the children whose start and the time
-- limit add up to no more than the time now, and to none if the limit is 0.
pub killed-kill_overdue :
    (conf : NsjConf) (now pid : ℤ) (pids : List PidElem) (w : World)
    → killed pid (kill_overdue conf now pids w).1.log
      ≡ (not (eq_ℤ conf.tlimit (pos 0)) && has_overdue conf now pid pids || killed pid w.log)
unfolding kill_overdue
killed-kill_overdue conf now pid [] w = ground arith
killed-kill_overdue conf now pid (p ∷ pids) w = elim (Bool-cases (eq_ℤ conf.tlimit (pos 0))) [
  | inl off ↦ rw (off, kill_overdue) (rw off at (killed-kill_overdue conf now pid pids w))
  | inr on ↦ elim (Bool-cases (overdue conf now p)) [
    | inl late ↦
        let had : reached conf now p ≡ true = sym (overdue-reached conf now p) ∙ late in
        rw (on, late, had, kill_overdue)
          (killed_late (eq_ℤ p.pid pid) (has_overdue conf now pid pids) (killed pid w.log)
            (rw on at (killed-kill_overdue conf now pid pids (after_kills p w))))
    | inr early ↦
        let has : reached conf now p ≡ false = sym (overdue-reached conf now p) ∙ early in
        rw (on, early, has, kill_overdue)
          (killed_early (eq_ℤ p.pid pid) (has_overdue conf now pid pids) (killed pid w.log)
            (rw on at (killed-kill_overdue conf now pid pids w)))
  ]
]

-- `subprocKillAll` sends SIGKILL to every child of the list and to no other process.
pub killed-subproc_kill_all :
    (pid : ℤ) (pids : List PidElem) (w : World)
    → killed pid (subproc_kill_all pids w).1.log ≡ (has_pid pid pids || killed pid w.log)
unfolding subproc_kill_all
killed-subproc_kill_all pid [] w = refl
killed-subproc_kill_all pid (p ∷ pids) w = ground (
  arith,
  killed-subproc_kill_all pid pids
      (record w { log = (kill p.pid 9, w.kernel w.log (kill p.pid 9)) ∷ w.log }),
)
