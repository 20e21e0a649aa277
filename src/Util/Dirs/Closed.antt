-- ===== src/Util/Dirs/Closed.antt =====
-- `utilCreateDirRecursively` ends, and leaves no directory open.
use nsjail.Common.{
  ℕ, zero, suc, ◌+◌, ◌≤◌, ◌<◌, ◌≡◌, refl, Bool, true, false, not, Option, none, some, [], ◌∷◌,
  length, ◌==◌, if◌then◌else◌, arith, inl, inr, Option-cases,
}
use nsjail.Common.Int.{ℤ, pos}
use nsjail.Common.Text.{bytes, snprintf, path_max}
use nsjail.Os.{
  CString, open_file, openat, mkdirat, close, Reply, fail, done, World, value, Action, pure, sys,
  made, ◌>>=◌, ◌>>◌,
}
use nsjail.Os.Returns.{Returns, Returns-pure, Returns-if, Returns-bind, Returns-sys}
use nsjail.Os.Descriptors.{
  Closes-both, Closes-owed, Closes, Closed, nothing, only, Closes-pure, Closes-if, Closes-bind,
  Closes-first, Closes-sys, Closes-close, Closes-open,
}
use nsjail.Util.Dirs.{
  component, skip_slashes, enter_dir, create_loop, util_create_dir_recursively, close_and,
  o_rdonly_cloexec, o_directory_cloexec,
}

component-lt : (s name rest : CString) → component s ≡ some (name, rest) → length rest < length s
unfolding component
component-lt [] name rest h = absurd (ground arith)
component-lt (c ∷ s) name rest h = elim (Option-cases (component s)) [
  | inl e ↦ ground arith
  | inr ((name', rest'), e) ↦ ground (arith, component-lt s name' rest' e)
]

skip_slashes-le : (s : CString) → length (skip_slashes s) ≤ length s
unfolding skip_slashes
skip_slashes-le [] = omega arith
skip_slashes-le (c ∷ s) = ground (arith, skip_slashes-le s)

close_and-Returns : (ok : Bool) (fd : ℕ) → Returns (close_and ok fd)
close_and-Returns ok fd =
    Returns-bind (sys (close (pos fd))) _ (Returns-sys _) (λ _. Returns-pure ok)

close_pure-Returns : {A : Type 0} (fd : ℕ) (a : A) → Returns (sys (close (pos fd)) >> pure a)
close_pure-Returns fd a =
    Returns-bind (sys (close (pos fd))) _ (Returns-sys _) (λ _. Returns-pure a)

enter_dir-Returns : (prev : ℕ) (name : CString) → Returns (enter_dir prev name)
unfolding enter_dir
enter_dir-Returns prev name =
    Returns-bind (sys (mkdirat (pos prev) name 0o755)) _ (Returns-sys _) (λ m.
      Returns-if (made m) _ _
        (Returns-bind (sys (openat (pos prev) name o_directory_cloexec)) _ (Returns-sys _) go)
        (close_pure-Returns prev none))
  where
    go :
        (r : Reply)
        → Returns {A = Option ℕ} (elim r [
          | fail e ↦ sys (close (pos prev)) >> pure none
          | done fd out ↦ sys (close (pos prev)) >> pure (some fd)
        ])
    go (fail e) = close_pure-Returns prev none
    go (done fd out) = close_pure-Returns prev (some fd)

create_loop-Returns :
    (fuel prev : ℕ) (curr : CString) → length curr < fuel → Returns (create_loop fuel prev curr)
unfolding create_loop
create_loop-Returns zero prev curr h = absurd (omega arith)
create_loop-Returns (suc fuel) prev curr h = elim (Option-cases (component (skip_slashes curr))) [
  | inl e ↦ rw (e, create_loop) (close_and-Returns true prev)
  | inr ((name, rest), e) ↦
      let shorter : length rest < fuel =
        omega (arith, component-lt (skip_slashes curr) name rest e, skip_slashes-le curr) in
      rw (e, create_loop)
        (Returns-bind (enter_dir prev name) _ (enter_dir-Returns prev name)
          (go rest (λ fd. create_loop-Returns fuel fd rest shorter)))
]
  where
    go :
        (rest : CString)
        → ((fd : ℕ) → Returns (create_loop fuel fd rest))
        → (next : Option ℕ)
        → Returns (elim next [ none ↦ pure false | some fd ↦ create_loop fuel fd rest ])
    go rest ih none = Returns-pure false
    go rest ih (some fd) = ih fd

-- What comes after a closing.
close_then :
    {A B : Type 0} (owed : ℤ → ℕ) (fd : ℕ) (a : B) (k : B → Action A)
    → Closes owed (k a)
    → Closes (λ q. only (pos fd) q + owed q) ((sys (close (pos fd)) >> pure a) >>= k)
close_then owed fd a k c =
    Closes-both (only (pos fd)) owed (sys (close (pos fd))) (λ _. k a) (Closes-close (pos fd))
      (λ _. c)

enter_dir-Closes :
    (prev : ℕ) (name : CString) (k : Option ℕ → Action Bool)
    → Closes nothing (k none)
    → ((fd : ℕ) → Closes (only (pos fd)) (k (some fd)))
    → Closes (only (pos prev)) (enter_dir prev name >>= k)
unfolding enter_dir
enter_dir-Closes prev name k cn cs =
    Closes-bind (sys (mkdirat (pos prev) name 0o755)) (λ m. body (made m) >>= k)
      (Closes-sys _ refl (λ fd. refl)) (λ m. go (made m))
  where
    left : Closes (only (pos prev)) ((sys (close (pos prev)) >> pure none) >>= k)
    left = Closes-owed _ (only (pos prev)) _ (λ fd. omega arith) (close_then nothing prev none k cn)

    next : Reply → Action (Option ℕ)
    next r = elim r [
      | fail e ↦ sys (close (pos prev)) >> pure none
      | done fd out ↦ sys (close (pos prev)) >> pure (some fd)
    ]

    body : Bool → Action (Option ℕ)
    body b =
        if b
        then (sys (openat (pos prev) name o_directory_cloexec) >>= next)
        else (sys (close (pos prev)) >> pure none)

    go : (b : Bool) → Closes (only (pos prev)) (body b >>= k)
    go false = left
    go true =
        Closes-open (only (pos prev)) (openat (pos prev) name o_directory_cloexec)
          (λ r. next r >>= k) refl (λ fd. refl) (λ e. left)
          (λ n out. close_then (only (pos n)) prev (some n) k (cs n))

create_loop-Closes :
    (fuel prev : ℕ) (curr : CString) → Closes (only (pos prev)) (create_loop fuel prev curr)
unfolding create_loop
create_loop-Closes zero prev curr = record { at = λ w a fd h. absurd (ground arith) }
create_loop-Closes (suc fuel) prev curr = elim (Option-cases (component (skip_slashes curr))) [
  | inl e ↦
      rw (e, create_loop)
        (Closes-first (sys (close (pos prev))) _ (Closes-close (pos prev)) (λ _. Closes-pure true))
  | inr ((name, rest), e) ↦
      rw (e, create_loop)
        (enter_dir-Closes prev name
          (λ next. elim next [ none ↦ pure false | some fd ↦ create_loop fuel fd rest ])
          (Closes-pure false) (λ fd. create_loop-Closes fuel fd rest))
]

util_create_dir_recursively-Returns : (dir : CString) → Returns (util_create_dir_recursively dir)
unfolding util_create_dir_recursively
util_create_dir_recursively-Returns [] = Returns-pure false
util_create_dir_recursively-Returns (c ∷ dir) =
    Returns-if (not (c == b'/')) _ _ (Returns-pure false)
      (Returns-bind (sys (open_file (bytes "/") o_rdonly_cloexec)) _ (Returns-sys _) go)
  where
    path : CString
    path = snprintf path_max (c ∷ dir)

    go :
        (r : Reply)
        → Returns
            (elim r [ fail e ↦ pure false | done fd out ↦ create_loop (length path + 1) fd path ])
    go (fail e) = Returns-pure false
    go (done fd out) = create_loop-Returns (length path + 1) fd path (omega arith)

util_create_dir_recursively-Closes :
    (dir : CString) → Closes nothing (util_create_dir_recursively dir)
unfolding util_create_dir_recursively
util_create_dir_recursively-Closes [] = Closes-pure false
util_create_dir_recursively-Closes (c ∷ dir) = Closes-if (not (c == b'/')) _ _ (Closes-pure false) (
    Closes-open nothing (open_file (bytes "/") o_rdonly_cloexec)
      (λ r. elim r [ fail e ↦ pure false | done fd out ↦ create_loop (length path + 1) fd path ])
      refl (λ fd. refl) (λ e. Closes-pure false)
      (λ n out.
        Closes-owed (only (pos n)) _ _ (λ fd. omega arith)
          (create_loop-Closes (length path + 1) n path)))
  where
    path : CString
    path = snprintf path_max (c ∷ dir)

-- `utilCreateDirRecursively` returns for every path and whatever the kernel answers, and has then
-- closed each descriptor as often as it has opened it.
pub util_create_dir_recursively-Closed :
    (dir : CString) (w : World) (fd : ℤ)
    → (b : Bool) × ((util_create_dir_recursively dir w).0 ≡ value b)
      × Closed 0 fd w.log (util_create_dir_recursively dir w).1.log
util_create_dir_recursively-Closed dir w fd =
    let (b, h) = (util_create_dir_recursively-Returns dir).at w in
    (b, h, (util_create_dir_recursively-Closes dir).at w b fd h)
