-- ===== src/Util/Write.antt =====
-- `utilWriteToFd` ends, and true means that all was written.
use nsjail.Common.{
  ℕ, zero, suc, ◌+◌, ◌≤◌, ◌≡◌, sym, ap, ◌∙◌, Bool, true, List, [], ◌∷◌, ◌++◌, length, take, drop,
  length-drop, take-append-drop, arith, inl, inr, if◌then◌else◌, ◌==◌,
}
use nsjail.Common.Int.{ℤ, eq_ℤ}
use mathlib.Core.List.{append-nil, append_assoc}
use nsjail.Os.{Reply, Event, World, write, fail, done, value, unfinished, result_of}
use nsjail.Os.Laws.{Reply-cases}
use nsjail.Util.{write_loop, util_write_to_fd}

-- The bytes that descriptor `fd` has taken, in order: of each write, as many as it returned.
abbrev pub taken_by : ℤ → Event → List ℕ
taken_by fd (write fd' bytes, done n out) = if eq_ℤ fd' fd then take n bytes else []
taken_by fd e = []

abbrev pub written : ℤ → List Event → List ℕ
written fd [] = []
written fd (e ∷ log) = written fd log ++ taken_by fd e

-- How many calls were interrupted, or returned 0.
abbrev pub idle : Reply → Bool
idle (fail e) = e == 4
idle (done n out) = n == 0

abbrev pub idles : List Event → ℕ
idles [] = 0
idles ((c, r) ∷ log) = if idle r then suc (idles log) else idles log

eq_ℤ-refl : (a : ℤ) → eq_ℤ a a ≡ true
eq_ℤ-refl a = ground arith

abbrev after_write : ℤ → List ℕ → Reply → World → World
after_write fd rest r w = record w { log = (write fd rest, r) ∷ w.log }

written-fail :
    (fd : ℤ) (rest : List ℕ) (e : ℕ) (w : World)
    → written fd (after_write fd rest (fail e) w).log ++ rest ≡ written fd w.log ++ rest
written-fail fd rest e w = ap (λ l. l ++ rest) (append-nil (written fd w.log))

written-done :
    (fd : ℤ) (rest : List ℕ) (n : ℕ) (out : List ℕ) (w : World)
    → written fd (after_write fd rest (done n out) w).log ++ drop n rest ≡ written fd w.log ++ rest
written-done fd rest n out w = rw (eq_ℤ-refl fd) (
    append_assoc (written fd w.log) (take n rest) (drop n rest)
    ∙ ap (λ l. written fd w.log ++ l) (take-append-drop n rest))

write_loop-written :
    (fuel : ℕ) (fd : ℤ) (rest : List ℕ) (w : World)
    → (write_loop fuel fd rest w).0 ≡ value true
    → written fd (write_loop fuel fd rest w).1.log ≡ written fd w.log ++ rest
unfolding write_loop
write_loop-written zero fd rest w h = absurd (ground arith)
write_loop-written (suc fuel) fd [] w h = sym (append-nil (written fd w.log))
write_loop-written (suc fuel) fd (b ∷ bs) w h =
    let rest : List ℕ = b ∷ bs in
    elim (Reply-cases (w.kernel w.log (write fd rest))) [
      | inl (e, q) ↦ ground (
        arith,
        written-fail fd rest e w,
        write_loop-written fuel fd rest (after_write fd rest (fail e) w),
      )
      | inr (n, out, q) ↦ ground (
        arith,
        written-done fd rest n out w,
        write_loop-written fuel fd (drop n rest) (after_write fd rest (done n out) w),
      )
    ]

-- If `utilWriteToFd` returns true, the descriptor has taken the bytes of the buffer, all of them
-- and in order, after what it had taken before, however the kernel has cut the writes.
pub util_write_to_fd-written :
    (fuel : ℕ) (fd : ℤ) (buf : List ℕ) (w : World)
    → (util_write_to_fd fuel fd buf w).0 ≡ value true
    → written fd (util_write_to_fd fuel fd buf w).1.log ≡ written fd w.log ++ buf
unfolding util_write_to_fd
util_write_to_fd-written = write_loop-written

write_loop-fuel :
    (fuel : ℕ) (fd : ℤ) (rest : List ℕ) (w : World)
    → (write_loop fuel fd rest w).0 ≡ unfinished
    → fuel + idles w.log ≤ length rest + idles (write_loop fuel fd rest w).1.log
unfolding write_loop
write_loop-fuel zero fd rest w h = omega arith
write_loop-fuel (suc fuel) fd rest w h =
    let r : Reply = w.kernel w.log (write fd rest) in
    let w' : World = after_write fd rest r w in
    ground (
      arith,
      length-drop (result_of r) rest,
      write_loop-fuel fuel fd rest w',
      write_loop-fuel fuel fd (drop (result_of r) rest) w',
    )

-- `utilWriteToFd` needs no more rounds than the bytes it is to write, one, and one for each
-- call that a signal interrupts or that writes nothing.
pub util_write_to_fd-fuel :
    (fuel : ℕ) (fd : ℤ) (buf : List ℕ) (w : World)
    → (util_write_to_fd fuel fd buf w).0 ≡ unfinished
    → fuel + idles w.log ≤ length buf + idles (util_write_to_fd fuel fd buf w).1.log
unfolding util_write_to_fd
util_write_to_fd-fuel = write_loop-fuel
