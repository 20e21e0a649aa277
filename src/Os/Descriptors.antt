-- ===== src/Os/Descriptors.antt =====
-- Which descriptors an action opens and closes, by the calls that it makes.
use mathlib.Core.Path.{subst, fun_ext}
use nsjail.Common.{
  ℕ, ◌+◌, ◌≡◌, sym, ap, Bool, true, false, List, [], ◌∷◌, if◌then◌else◌, arith, inl, inr,
}
use nsjail.Common.Int.{ℤ, pos, eq_ℤ}
use nsjail.Os.{
  Syscall, open_file, openat, socket, accept, close, Reply, fail, done, Event, World, value, Action,
  pure, sys, ◌>>=◌,
}
use nsjail.Os.Laws.{>>=-eq-value, >>=-value, Reply-cases}

-- Whether the call is one that returns a new descriptor.
abbrev pub is_open : Syscall → Bool
is_open (open_file name flags) = true
is_open (openat dir name flags) = true
is_open (socket family) = true
is_open (accept sock) = true
is_open c = false

abbrev pub is_close : ℤ → Syscall → Bool
is_close fd (close q) = eq_ℤ q fd
is_close fd c = false

abbrev pub returns_fd : ℤ → Reply → Bool
returns_fd fd (fail e) = false
returns_fd fd (done n out) = eq_ℤ (pos n) fd

abbrev one_if : Bool → ℕ
one_if b = if b then 1 else 0

-- How often the descriptor has been opened, and closed.
abbrev pub opens : ℤ → List Event → ℕ
opens fd [] = 0
opens fd ((c, r) ∷ log) =
    (if is_open c then (if returns_fd fd r then 1 else 0) else 0) + opens fd log

abbrev pub closes : ℤ → List Event → ℕ
closes fd [] = 0
closes fd ((c, r) ∷ log) = (if is_close fd c then 1 else 0) + closes fd log

-- Between the two logs the descriptor was closed `n` times more often than opened.
abbrev pub Closed : ℕ → ℤ → List Event → List Event → Type 0
Closed n fd before after = opens fd after + closes fd before + n ≡ opens fd before + closes fd after

-- If `m` returns a value, it has closed each descriptor as `owed` says.
pub record Closes {A : Type 0} (owed : ℤ → ℕ) (m : Action A) : Type 0 where
  pub at : (w : World) (a : A) (fd : ℤ) → (m w).0 ≡ value a → Closed (owed fd) fd w.log (m w).1.log

abbrev pub nothing : ℤ → ℕ
nothing fd = 0

abbrev pub only : ℤ → ℤ → ℕ
only q fd = if eq_ℤ q fd then 1 else 0

module _ {A : Type 0} where
  pub Closes-pure : (a : A) → Closes nothing (pure a)
  Closes-pure a = record { at = λ w b fd h. omega arith }

  pub Closes-if :
      {owed : ℤ → ℕ} (b : Bool) (m n : Action A)
      → Closes owed m
      → Closes owed n
      → Closes owed (if b then m else n)
  Closes-if true m n cm cn = cm
  Closes-if false m n cm cn = cn

  bound_lem :
      {B : Type 0} (m : Action B) (f : B → Action A) (w : World) (b : B)
      → (m w).0 ≡ value b
      → (m >>= f) w ≡ f b (m w).1
  bound_lem m f w b h = >>=-value f m w b (m w).1 (ap (λ r. (r, (m w).1)) h)

  -- What the first part owes is added to what the second one does.
  pub Closes-both :
      {B : Type 0} (mine yours : ℤ → ℕ) (m : Action B) (f : B → Action A)
      → Closes mine m
      → ((b : B) → Closes yours (f b))
      → Closes (λ fd. mine fd + yours fd) (m >>= f)
  Closes-both mine yours m f cm cf = record {
    at = λ w a fd h.
        let (b, first, second) = >>=-eq-value f a m w h in
        subst
          (λ r.
            opens fd r.1.log + closes fd w.log + (mine fd + yours fd)
            ≡ opens fd w.log + closes fd r.1.log)
          (sym (bound_lem m f w b first))
          (omega (arith, cm.at w b fd first, (cf b).at (m w).1 a fd second));
  }

  pub Closes-bind :
      {B : Type 0} {owed : ℤ → ℕ} (m : Action B) (f : B → Action A)
      → Closes nothing m
      → ((b : B) → Closes owed (f b))
      → Closes owed (m >>= f)
  Closes-bind {owed} m f cm cf =
      subst (λ o. Closes o (m >>= f)) (fun_ext (λ fd. omega arith))
        (Closes-both nothing owed m f cm cf)

  pub Closes-first :
      {B : Type 0} {owed : ℤ → ℕ} (m : Action B) (f : B → Action A)
      → Closes owed m
      → ((b : B) → Closes nothing (f b))
      → Closes owed (m >>= f)
  Closes-first {owed} m f cm cf =
      subst (λ o. Closes o (m >>= f)) (fun_ext (λ fd. omega arith))
        (Closes-both owed nothing m f cm cf)

-- A call that neither opens nor closes.
pub Closes-sys :
    (c : Syscall) → is_open c ≡ false → ((fd : ℤ) → is_close fd c ≡ false) → Closes nothing (sys c)
Closes-sys c o k = record { at = λ w r fd h. ground (arith, k fd) }

pub Closes-close : (q : ℤ) → Closes (only q) (sys (close q))
Closes-close q = record { at = λ w r fd h. ground arith }

-- A call that opens a descriptor, and goes on with what owes it too, if it is there.
pub Closes-open :
    {A : Type 0} (owed : ℤ → ℕ) (c : Syscall) (f : Reply → Action A)
    → is_open c ≡ true
    → ((fd : ℤ) → is_close fd c ≡ false)
    → ((e : ℕ) → Closes owed (f (fail e)))
    → ((n : ℕ) (out : List ℕ) → Closes (λ fd. owed fd + only (pos n) fd) (f (done n out)))
    → Closes owed (sys c >>= f)
Closes-open owed c f o k cf cd = record {
  at = λ w a fd h. elim (Reply-cases (w.kernel w.log c)) [
    | inl (e, r) ↦ rw r (
        let w' : World = record w { log = (c, fail e) ∷ w.log } in
        let g : (f (fail e) w').0 ≡ value a = rw r at h in
        ground (arith, k fd, (cf e).at w' a fd g))
    | inr (n, out, r) ↦ rw r (
        let w' : World = record w { log = (c, done n out) ∷ w.log } in
        let g : (f (done n out) w').0 ≡ value a = rw r at h in
        ground (arith, k fd, (cd n out).at w' a fd g))
  ];
}

-- A descriptor that is opened at no cost before.
pub Closes-owed :
    {A : Type 0} (owed owed' : ℤ → ℕ) (m : Action A)
    → ((fd : ℤ) → owed fd ≡ owed' fd)
    → Closes owed m
    → Closes owed' m
Closes-owed owed owed' m e c = subst (λ o. Closes o m) (fun_ext e) c
