-- ===== src/Contain/Descriptors.antt =====
-- contain.c: which descriptors are left open for the program.
use mathlib.Core.Path.{subst}
use mathlib.Core.List.{append_assoc}
use nsjail.Common.{
  ℕ, zero, suc, ◌+◌, ◌%◌, ◌≤◌, ◌<◌, ◌≡◌, refl, sym, ap, ◌∙◌, Bool, true, false, ◌&&◌, ◌||◌, List,
  [], ◌∷◌, ◌++◌, ◌==◌, ==_refl, if◌then◌else◌, arith, inl, inr, Bool-cases,
}
use nsjail.Common.Int.{pos, eq_ℤ}
use nsjail.Os.{Syscall, fcntl_getfd, fcntl_setfd, Reply, fail, done, Event, World, value}
use nsjail.Os.Laws.{Reply-cases}
use nsjail.Conf.{NsjConf}
use nsjail.Contain.{contain_pass_fd, new_flags, naive_loop, contain_make_fds_coe_naive}

-- The flag FD_CLOEXEC that a descriptor is to have.
abbrev pub wanted : NsjConf → ℕ → ℕ
wanted conf fd = if contain_pass_fd conf.open_fds (pos fd) then 0 else 1

-- The event shows that the descriptor is not open, or gives it the flag it is to have.
abbrev pub settles : NsjConf → ℕ → Event → Bool
settles conf fd (fcntl_getfd q, fail e) = eq_ℤ q (pos fd)
settles conf fd (fcntl_setfd q flags, done n out) = eq_ℤ q (pos fd) && flags % 2 == wanted conf fd
settles conf fd e = false

abbrev pub settled : NsjConf → ℕ → List Event → Bool
settled conf fd [] = false
settled conf fd (e ∷ es) = settles conf fd e || settled conf fd es

pub settled-append :
    (conf : NsjConf) (fd : ℕ) (es fs : List Event)
    → settled conf fd (es ++ fs) ≡ (settled conf fd es || settled conf fd fs)
settled-append conf fd [] fs = refl
settled-append conf fd (e ∷ es) fs = ground (arith, settled-append conf fd es fs)

new_flags-wanted :
    (conf : NsjConf) (fd flags : ℕ) → new_flags conf (pos fd) flags % 2 ≡ wanted conf fd
new_flags-wanted conf fd flags = elim (Bool-cases (contain_pass_fd conf.open_fds (pos fd))) [
  | inl p ↦ rw p (omega arith)
  | inr p ↦ rw p (omega arith)
]

pub settled_set :
    (conf : NsjConf) (fd flags m : ℕ) (out : List ℕ) (es : List Event)
    → settled conf fd ((fcntl_setfd (pos fd) (new_flags conf (pos fd) flags), done m out) ∷ es)
      ≡ true
settled_set conf fd flags m out es =
    let same : eq_ℤ (pos fd) (pos fd) ≡ true = ground arith in
    rw (new_flags-wanted conf fd flags, ==_refl (wanted conf fd), same) refl

-- What the actions between two worlds have done to the `n` descriptors from `fd` on.
pub record Settles (conf : NsjConf) (n fd : ℕ) (w w' : World) : Type 0 where
  pub new : List Event
  pub log : w'.log ≡ new ++ w.log
  pub all : (q : ℕ) → fd ≤ q → q < fd + n → settled conf q new ≡ true

Settles-suc :
    (conf : NsjConf) (n fd : ℕ) (w w' : World) (es : List Event)
    → settled conf fd es ≡ true
    → Settles conf n (fd + 1) (record w { log = es ++ w.log }) w'
    → Settles conf (suc n) fd w w'
Settles-suc conf n fd w w' es h s = record {
  new = s.new ++ es;
  log = s.log ∙ sym (append_assoc s.new es w.log);
  all = λ q a b. settled-append conf q s.new es ∙ (elim (Bool-cases (q == fd)) [
    | inl e ↦
        let p : q ≡ fd = ground arith in
        ground (arith, ap (λ k. settled conf k es) p, ap (λ k. settled conf k s.new) p)
    | inr e ↦ rw (s.all q (ground arith) (ground arith)) refl
  ]);
}

abbrev pub after : Syscall → Reply → World → World
after c r w = record w { log = (c, r) ∷ w.log }

module _ (conf : NsjConf) (n fd : ℕ) (w : World) where
  naive_loop-fail :
      (e : ℕ)
      → w.kernel w.log (fcntl_getfd (pos fd)) ≡ fail e
      → naive_loop conf (suc n) fd w
        ≡ naive_loop conf n (fd + 1) (after (fcntl_getfd (pos fd)) (fail e) w)
  unfolding naive_loop
  naive_loop-fail e g = rw (naive_loop, g) refl

  -- With the flags of the descriptor.
  abbrev read_flags : ℕ → List ℕ → World
  read_flags flags out = after (fcntl_getfd (pos fd)) (done flags out) w

  abbrev set_flags : ℕ → Syscall
  set_flags flags = fcntl_setfd (pos fd) (new_flags conf (pos fd) flags)

  naive_loop-done_done :
      (flags m : ℕ) (out out' : List ℕ)
      → w.kernel w.log (fcntl_getfd (pos fd)) ≡ done flags out
      → w.kernel (read_flags flags out).log (set_flags flags) ≡ done m out'
      → naive_loop conf (suc n) fd w
        ≡ naive_loop conf n (fd + 1) (after (set_flags flags) (done m out') (read_flags flags out))
  unfolding naive_loop
  naive_loop-done_done flags m out out' g s = rw (naive_loop, g, s) refl

  naive_loop-done_fail :
      (flags e : ℕ) (out : List ℕ)
      → w.kernel w.log (fcntl_getfd (pos fd)) ≡ done flags out
      → w.kernel (read_flags flags out).log (set_flags flags) ≡ fail e
      → (naive_loop conf (suc n) fd w).0 ≡ value false
  unfolding naive_loop
  naive_loop-done_fail flags e out g s = rw (naive_loop, g, s) refl

naive_loop-Settles :
    (conf : NsjConf) (n fd : ℕ) (w : World)
    → (naive_loop conf n fd w).0 ≡ value true
    → Settles conf n fd w (naive_loop conf n fd w).1
unfolding naive_loop
naive_loop-Settles conf zero fd w h = record {
  new = [];
  log = refl;
  all = λ q a b. absurd (omega arith);
}
naive_loop-Settles conf (suc n) fd w h =
    elim (Reply-cases (w.kernel w.log (fcntl_getfd (pos fd)))) [
      | inl (e, g) ↦
          let same = naive_loop-fail conf n fd w e g in
          let w' : World = after (fcntl_getfd (pos fd)) (fail e) w in
          subst (λ r. Settles conf (suc n) fd w r.1) (sym same)
            (Settles-suc conf n fd w (naive_loop conf n (fd + 1) w').1
              ((fcntl_getfd (pos fd), fail e) ∷ []) (ground arith)
              (naive_loop-Settles conf n (fd + 1) w' (subst (λ r. r.0 ≡ value true) same h)))
      | inr (flags, out, g) ↦
          let v : World = read_flags conf n fd w flags out in
          let c : Syscall = set_flags conf n fd w flags in
          elim (Reply-cases (w.kernel v.log c)) [
            | inl (e, s) ↦
                let no : (naive_loop conf (suc n) fd w).0 ≡ value false =
                  naive_loop-done_fail conf n fd w flags e out g s in
                absurd (ground arith)
            | inr (m, out', s) ↦
                let same = naive_loop-done_done conf n fd w flags m out out' g s in
                let w' : World = after c (done m out') v in
                subst (λ r. Settles conf (suc n) fd w r.1) (sym same)
                  (Settles-suc conf n fd w (naive_loop conf n (fd + 1) w').1
                    ((c, done m out') ∷ (fcntl_getfd (pos fd), done flags out) ∷ [])
                    (settled_set conf fd flags m out' ((fcntl_getfd (pos fd), done flags out) ∷ []))
                    (naive_loop-Settles conf n (fd + 1) w' (subst (λ r. r.0 ≡ value true) same h)))
          ]
    ]

pub contain_make_fds_coe_naive-Settles :
    (conf : NsjConf) (w : World)
    → (contain_make_fds_coe_naive conf w).0 ≡ value true
    → Settles conf 1024 0 w (contain_make_fds_coe_naive conf w).1
unfolding contain_make_fds_coe_naive
contain_make_fds_coe_naive-Settles conf w h = naive_loop-Settles conf 1024 0 w h

-- If `containMakeFdsCOENaive` returns true, each of the first 1024 descriptors was seen, by the
-- calls that it has made, not to be open, or was given the flag FD_CLOEXEC if it is not to be
-- passed on and was rid of it if it is.
pub contain_make_fds_coe_naive-settled :
    (conf : NsjConf) (w : World) (fd : ℕ)
    → (contain_make_fds_coe_naive conf w).0 ≡ value true
    → fd < 1024
    → (new : List Event) × ((contain_make_fds_coe_naive conf w).1.log ≡ new ++ w.log)
      × (settled conf fd new ≡ true)
contain_make_fds_coe_naive-settled conf w fd h b =
    let s = contain_make_fds_coe_naive-Settles conf w h in
    (s.new, s.log, s.all fd (omega arith) (omega arith))
