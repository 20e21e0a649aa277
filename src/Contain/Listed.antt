-- ===== src/Contain/Listed.antt =====
-- contain.c: the descriptors that are found in /proc/self/fd.
use mathlib.Core.List.{append_assoc}
use nsjail.Common.{
  ℕ, suc, ◌%◌, ◌^◌, ◌<◌, ◌≡◌, refl, sym, ap, ◌∙◌, Bool, true, false, not, ◌&&◌, ◌||◌, List, [], ◌∷◌,
  ◌++◌, if◌then◌else◌, arith, inl, inr, Bool-cases,
}
use nsjail.Common.Int.{ℤ, pos, negsuc, eq_ℤ}
use nsjail.Common.Text.{eq_bytes}
use nsjail.Os.{
  failed, CString, Syscall, fcntl_getfd, fcntl_setfd, strtoul, readdir, opendir_fds, Reply, fail,
  done, Event, World, value, sys, pure, ◌>>=◌,
}
use nsjail.Conf.{NsjConf}
use nsjail.Contain.{
  new_flags, to_int, fd_of, is_dots, is_einval, close_false, mark_fd, numbered_fd, coe_entry,
}
use nsjail.Contain.Descriptors.{settled, settled-append, settled_set, after}

-- The directory was found to have an entry of that name.
abbrev pub is_entry : CString → Event → Bool
is_entry name (readdir, done (suc n) text) = eq_bytes text name
is_entry name e = false

abbrev pub has_entry : CString → List Event → Bool
has_entry name [] = false
has_entry name (e ∷ es) = is_entry name e || has_entry name es

pub has_entry-append :
    (name : CString) (es fs : List Event)
    → has_entry name (es ++ fs) ≡ has_entry name es || has_entry name fs
has_entry-append name [] fs = refl
has_entry-append name (e ∷ es) fs = ground (arith, has_entry-append name es fs)

-- The directory was opened.
abbrev pub is_open : Event → Bool
is_open (opendir_fds, r) = true
is_open e = false

abbrev pub has_open : List Event → Bool
has_open [] = false
has_open (e ∷ es) = is_open e || has_open es

or_front : (a : Bool) {b : Bool} (c d : Bool) → b ≡ c || d → a || b ≡ (a || c) || d
or_front true c d h = refl
or_front false c d h = h

pub has_open-append : (es fs : List Event) → has_open (es ++ fs) ≡ has_open es || has_open fs
has_open-append [] fs = refl
has_open-append (e ∷ es) fs =
    or_front (is_open e) (has_open es) (has_open fs) (has_open-append es fs)

eq_bytes-≡ : (a b : CString) → eq_bytes a b ≡ true → a ≡ b
eq_bytes-≡ [] [] h = refl
eq_bytes-≡ [] (y ∷ b) h = absurd (ground arith)
eq_bytes-≡ (x ∷ a) [] h = absurd (ground arith)
eq_bytes-≡ (x ∷ a) (y ∷ b) h =
    let rest = eq_bytes-≡ a b (ground arith) in
    let first : x ≡ y = ground arith in rw (first, rest) refl

to_int_small : (fd : ℕ) → fd < 2 ^ 31 → to_int fd ≡ pos fd
to_int_small fd h = let same : fd % 2 ^ 32 ≡ fd = omega arith in rw same (ground arith)

eq_pos : (q : ℤ) (fd : ℕ) → eq_ℤ q (pos fd) ≡ true → q ≡ pos fd
eq_pos (pos n) fd h = ground arith
eq_pos (negsuc n) fd h = absurd (ground arith)

module _ (conf : NsjConf) (fd : ℕ) (name : CString) where
  -- What the actions between two worlds have done, in which no entry is read and nothing opened: the descriptor is
  -- settled if `b`.
  pub record Marks (b : Bool) (w w' : World) : Type 0 where
    pub new : List Event
    pub log : w'.log ≡ new ++ w.log
    pub kernel : w'.kernel ≡ w.kernel
    pub none_read : has_entry name new ≡ false
    pub none_opened : has_open new ≡ false
    pub marked : not b || settled conf fd new ≡ true

  marked_set :
      (q : ℤ) (flags m : ℕ) (out' : List ℕ)
      → not (eq_ℤ q (pos fd))
          || settled conf fd ((fcntl_setfd q (new_flags conf q flags), done m out') ∷ [])
        ≡ true
  marked_set q flags m out' = elim (Bool-cases (eq_ℤ q (pos fd))) [
    | inl y ↦ rw (eq_pos q fd y) (rw (settled_set conf fd flags m out' []) (ground arith))
    | inr n ↦ rw n refl
  ]

  set_flags :
      (q : ℤ) (flags : ℕ) (s : Reply) (w : World)
      → ((if not (failed s) then pure true else close_false)
          (after (fcntl_setfd q (new_flags conf q flags)) s w)).0
        ≡ value true
      → Marks
          (eq_ℤ q (pos fd))
          w
          ((if not (failed s) then pure true else close_false)
            (after (fcntl_setfd q (new_flags conf q flags)) s w)).1
  set_flags q flags (fail e) w h = absurd (ground arith)
  set_flags q flags (done m out') w h = record {
    new = (fcntl_setfd q (new_flags conf q flags), done m out') ∷ [];
    log = refl;
    kernel = refl;
    none_read = refl;
    none_opened = refl;
    marked = marked_set q flags m out';
  }

  mark_fd-Marks :
      (q : ℤ) (r : Reply) (w : World)
      → (mark_fd conf q r w).0 ≡ value true
      → Marks (eq_ℤ q (pos fd)) w (mark_fd conf q r w).1
  unfolding mark_fd
  mark_fd-Marks q (fail e) w h = absurd (ground arith)
  mark_fd-Marks q (done flags out) w h =
      set_flags q flags (w.kernel w.log (fcntl_setfd q (new_flags conf q flags))) w h

  -- A call in front that reads no entry.
  Marks-after :
      {b : Bool} (c : Syscall) (r : Reply) (w w' : World)
      → is_entry name (c, r) ≡ false
      → is_open (c, r) ≡ false
      → Marks b (after c r w) w'
      → Marks b w w'
  Marks-after {b} c r w w' n o m = record {
    new = m.new ++ (c, r) ∷ [];
    log = m.log ∙ sym (append_assoc m.new ((c, r) ∷ []) w.log);
    kernel = m.kernel;
    none_read = ground (arith, has_entry-append name m.new ((c, r) ∷ []), m.none_read);
    none_opened = ground (arith, has_open-append m.new ((c, r) ∷ []), m.none_opened);
    marked = ground (arith, settled-append conf fd m.new ((c, r) ∷ []), m.marked);
  }

  numbered_fd-Marks :
      (r : Reply) (w : World)
      → (numbered_fd conf r w).0 ≡ value true
      → Marks (not (is_einval r) && eq_ℤ (fd_of r) (pos fd)) w (numbered_fd conf r w).1
  unfolding numbered_fd
  numbered_fd-Marks r w h = go (is_einval r) h
    where
      go :
          (b : Bool)
          → ((if b then pure true else sys (fcntl_getfd (fd_of r)) >>= mark_fd conf (fd_of r)) w).0
            ≡ value true
          → Marks
              (not b && eq_ℤ (fd_of r) (pos fd))
              w
              ((if b then pure true else sys (fcntl_getfd (fd_of r)) >>= mark_fd conf (fd_of r))
                w).1
      go true h = record {
        new = [];
        log = refl;
        kernel = refl;
        none_read = refl;
        none_opened = refl;
        marked = refl;
      }
      go false h =
          let c = fcntl_getfd (fd_of r) in
          let s = w.kernel w.log c in
          Marks-after c s w _ refl refl (mark_fd-Marks (fd_of r) s (after c s w) h)

  Marks-weaken : (b b' : Bool) (w w' : World) → not b || b' ≡ true → Marks b' w w' → Marks b w w'
  Marks-weaken b b' w w' h m = record {
    new = m.new;
    log = m.log;
    kernel = m.kernel;
    none_read = m.none_read;
    none_opened = m.none_opened;
    marked = ground (arith, m.marked);
  }

  -- `strtoul` reads the name as the descriptor's number.
  abbrev pub Reads : World → Type 0
  Reads w = (log : List Event) → w.kernel log (strtoul name 10) ≡ done fd []

  module _ (small : fd < 2 ^ 31) (no_dots : is_dots name ≡ false) where
    entry_no_dots :
        (text : CString)
        → is_dots text ≡ true
        → not (eq_bytes text name) || settled conf fd [] ≡ true
    entry_no_dots text e = elim (Bool-cases (eq_bytes text name)) [
      | inl y ↦
          let bad : true ≡ false =
            sym e ∙ (ap (λ t. is_dots t) (eq_bytes-≡ text name y) ∙ no_dots) in
          absurd (ground arith)
      | inr n ↦ rw n refl
    ]

    entry_number :
        (text : CString) (w : World)
        → Reads w
        → not (eq_bytes text name)
            || (not (is_einval (w.kernel w.log (strtoul text 10)))
                && eq_ℤ (fd_of (w.kernel w.log (strtoul text 10))) (pos fd))
          ≡ true
    entry_number text w p = elim (Bool-cases (eq_bytes text name)) [
      | inl y ↦
          let answer : w.kernel w.log (strtoul text 10) ≡ done fd [] =
            ap (λ t. w.kernel w.log (strtoul t 10)) (eq_bytes-≡ text name y) ∙ p w.log in
          rw (answer, to_int_small fd small) (ground arith)
      | inr n ↦ rw n refl
    ]

    pub coe_entry-Marks :
        (text : CString) (w : World)
        → Reads w
        → (coe_entry conf text w).0 ≡ value true
        → Marks (eq_bytes text name) w (coe_entry conf text w).1
    unfolding coe_entry
    coe_entry-Marks text w p h = go (is_dots text) refl h
      where
        go :
            (b : Bool)
            → is_dots text ≡ b
            → ((if b then pure true else sys (strtoul text 10) >>= numbered_fd conf) w).0
              ≡ value true
            → Marks
                (eq_bytes text name)
                w
                ((if b then pure true else sys (strtoul text 10) >>= numbered_fd conf) w).1
        go true e h = record {
          new = [];
          log = refl;
          kernel = refl;
          none_read = refl;
          none_opened = refl;
          marked = entry_no_dots text e;
        }
        go false e h =
            Marks-after (strtoul text 10) (w.kernel w.log (strtoul text 10)) w _ refl refl (
              Marks-weaken (eq_bytes text name) _ _ _ (entry_number text w p) (
                numbered_fd-Marks (w.kernel w.log (strtoul text 10))
                  (after (strtoul text 10) (w.kernel w.log (strtoul text 10)) w) h))
