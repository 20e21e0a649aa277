-- ===== src/Util/Dirs/Made.antt =====
-- Which directories `utilCreateDirRecursively` makes.
use nsjail.Common.{
  ℕ, zero, suc, ◌+◌, ◌≡◌, refl, ap, ◌∙◌, Bool, true, false, not, Option, none, some, [], ◌∷◌,
  length, rev_onto, ◌==◌, if◌then◌else◌, arith, inl, inr, Option-cases,
}
use nsjail.Common.Text.{bytes, snprintf, path_max}
use nsjail.Os.{CString, open_file, Reply, fail, done, World, value, Action, pure, sys, made, ◌>>=◌}
use nsjail.Os.Laws.{>>=-eq-value, >>=-value}
use nsjail.Util.Dirs.{
  component, skip_slashes, enter_dir, create_loop, util_create_dir_recursively, o_rdonly_cloexec,
}
use nsjail.Util.Dirs.Parents.{parents, made_dirs, parents-none, parents-some}

enter_dir-made :
    (prev : ℕ) (name : CString) (w : World) (fd : ℕ)
    → (enter_dir prev name w).0 ≡ value (some fd)
    → made_dirs (enter_dir prev name w).1.log ≡ name ∷ made_dirs w.log
unfolding enter_dir
enter_dir-made prev name w fd h = ground arith

-- The rest of the loop, after a directory has been entered.
abbrev go_on : ℕ → CString → Option ℕ → Action Bool
go_on fuel rest next = elim next [ none ↦ pure false | some fd ↦ create_loop fuel fd rest ]

MakesRest : ℕ → Type 0
MakesRest fuel =
    (prev : ℕ) (curr : CString) (w : World)
    → (create_loop fuel prev curr w).0 ≡ value true
    → made_dirs (create_loop fuel prev curr w).1.log ≡ rev_onto (parents curr) (made_dirs w.log)

entered :
    (fuel prev : ℕ) (name rest : CString) (w : World) (next : Option ℕ)
    → MakesRest fuel
    → (enter_dir prev name w).0 ≡ value next
    → (go_on fuel rest next (enter_dir prev name w).1).0 ≡ value true
    → made_dirs (go_on fuel rest next (enter_dir prev name w).1).1.log
      ≡ rev_onto (name ∷ parents rest) (made_dirs w.log)
unfolding MakesRest
entered fuel prev name rest w none ih first second = absurd (ground arith)
entered fuel prev name rest w (some fd) ih first second =
    ih fd rest (enter_dir prev name w).1 second
    ∙ ap (rev_onto (parents rest)) (enter_dir-made prev name w fd first)

stepped :
    (fuel prev : ℕ) (name rest : CString) (w : World)
    → MakesRest fuel
    → ((enter_dir prev name >>= go_on fuel rest) w).0 ≡ value true
    → made_dirs ((enter_dir prev name >>= go_on fuel rest) w).1.log
      ≡ rev_onto (name ∷ parents rest) (made_dirs w.log)
stepped fuel prev name rest w ih h =
    let k = go_on fuel rest in
    let enter = enter_dir prev name in
    let (next, first, second) = >>=-eq-value k true enter w h in
    ap (λ r. made_dirs r.1.log)
      (>>=-value k enter w next (enter w).1 (ap (λ r. (r, (enter w).1)) first))
    ∙ entered fuel prev name rest w next ih first second

makes-rest :
    (fuel prev : ℕ) (curr : CString) (w : World)
    → (create_loop fuel prev curr w).0 ≡ value true
    → MakesRest fuel
    → made_dirs (create_loop fuel prev curr w).1.log ≡ rev_onto (parents curr) (made_dirs w.log)
unfolding MakesRest
makes-rest fuel prev curr w h made = made prev curr w h

create_loop-made : (fuel : ℕ) → MakesRest fuel
unfolding create_loop MakesRest
create_loop-made zero prev curr w h = absurd (ground arith)
create_loop-made (suc fuel) prev curr w h = elim (Option-cases (component (skip_slashes curr))) [
  | inl e ↦ rw (e, create_loop, parents-none curr e) refl
  | inr ((name, rest), e) ↦
      rw (e, create_loop, parents-some curr name rest e)
        (stepped fuel prev name rest w (create_loop-made fuel) (rw (e, create_loop) at h))
]

-- The function behind its first `open`.
abbrev go_down : ℕ → CString → Reply → Action Bool
go_down fuel path (fail e) = pure false
go_down fuel path (done fd out) = create_loop fuel fd path

opened :
    (fuel : ℕ) (path : CString) (w : World) (r : Reply)
    → (go_down fuel path r w).0 ≡ value true
    → made_dirs (go_down fuel path r w).1.log ≡ rev_onto (parents path) (made_dirs w.log)
opened fuel path w (fail e) h = absurd (ground arith)
opened fuel path w (done fd out) h = makes-rest fuel fd path w h (create_loop-made fuel)

descended :
    (absolute : Bool) (path : CString) (w : World)
    → let walk =
        if not absolute
        then pure false
        else (sys (open_file (bytes "/") o_rdonly_cloexec) >>= go_down (length path + 1) path) in
      (walk w).0 ≡ value true → made_dirs (walk w).1.log ≡ rev_onto (parents path) (made_dirs w.log)
descended false path w h = absurd (ground arith)
descended true path w h =
    let r = w.kernel w.log (open_file (bytes "/") o_rdonly_cloexec) in
    opened (length path + 1) path
      (record w { log = (open_file (bytes "/") o_rdonly_cloexec, r) ∷ w.log }) r h

-- If `utilCreateDirRecursively` returns true, it has called `mkdirat` for the directories above the
-- path, all of them and in order, as cutting the path at its slashes gives them; a path is taken
-- up to 4095 bytes.
pub util_create_dir_recursively-made :
    (dir : CString) (w : World)
    → (util_create_dir_recursively dir w).0 ≡ value true
    → made_dirs (util_create_dir_recursively dir w).1.log
      ≡ rev_onto (parents (snprintf path_max dir)) (made_dirs w.log)
unfolding util_create_dir_recursively
util_create_dir_recursively-made [] w h = absurd (ground arith)
util_create_dir_recursively-made (c ∷ dir) w h =
    descended (c == b'/') (snprintf path_max (c ∷ dir)) w h
