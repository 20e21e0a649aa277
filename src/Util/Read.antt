-- ===== src/Util/Read.antt =====
-- `utilReadFromFd` ends, and stays within its buffer.
use nsjail.Common.{
  ℕ, zero, suc, ◌+◌, ◌-◌, ◌≤◌, ◌≡◌, refl, List, [], ◌∷◌, ◌++◌, length, length-append, arith,
}
use nsjail.Common.Int.{ℤ}
use nsjail.Os.{Reply, Event, Kernel, World, read, done, value, unfinished, result_of}
use nsjail.Os.Laws.{interrupts}
use nsjail.Util.{read_loop, bytes_of, util_read_from_fd}

-- The world after one call of `read`.
abbrev after_read : ℤ → ℕ → World → World
after_read fd n w = record w { log = (read fd n, w.kernel w.log (read fd n)) ∷ w.log }

read_loop-fuel :
    (fuel : ℕ) (fd : ℤ) (len sz : ℕ) (buf : List ℕ) (w : World)
    → (read_loop fuel fd len sz buf w).0 ≡ unfinished
    → fuel + interrupts w.log ≤ len - sz + interrupts (read_loop fuel fd len sz buf w).1.log
unfolding read_loop
read_loop-fuel zero fd len sz buf w h = omega arith
read_loop-fuel (suc fuel) fd len sz buf w h =
    let r : Reply = w.kernel w.log (read fd (len - sz)) in
    let w' : World = after_read fd (len - sz) w in
    ground (
      arith,
      read_loop-fuel fuel fd len sz buf w',
      read_loop-fuel fuel fd len (sz + result_of r) (buf ++ bytes_of r) w',
    )

-- `utilReadFromFd` needs no more rounds than the bytes it is to read, one, and one for each
-- interrupted call: where `fuel` rounds are not enough, signals have interrupted the rest.
pub util_read_from_fd-fuel :
    (fuel : ℕ) (fd : ℤ) (len : ℕ) (w : World)
    → (util_read_from_fd fuel fd len w).0 ≡ unfinished
    → fuel + interrupts w.log ≤ len + interrupts (util_read_from_fd fuel fd len w).1.log
unfolding util_read_from_fd
util_read_from_fd-fuel fuel fd len w h = omega (arith, read_loop-fuel fuel fd len 0 [] w h)

-- `read` returns at most the bytes it is asked for, and writes as many as it returns.
abbrev pub ReadsWithin : Kernel → Type 0
ReadsWithin k =
    (log : List Event) (fd : ℤ) (n m : ℕ) (out : List ℕ)
    → k log (read fd n) ≡ done m out
    → (m ≤ n) × (length out ≡ m)

read_loop-bounds :
    (fuel : ℕ) (fd : ℤ) (len sz : ℕ) (buf : List ℕ) (w : World) (n : ℕ) (out : List ℕ)
    → ReadsWithin w.kernel
    → sz ≤ len
    → length buf ≡ sz
    → (read_loop fuel fd len sz buf w).0 ≡ value (n, out)
    → (n ≤ len) × (length out ≡ n)
unfolding read_loop
read_loop-bounds zero fd len sz buf w n out k p q h = absurd (ground arith)
read_loop-bounds (suc fuel) fd len sz buf w n out k p q h =
    let r : Reply = w.kernel w.log (read fd (len - sz)) in
    let w' : World = after_read fd (len - sz) w in
    ground (
      arith,
      k w.log fd (len - sz) (result_of r) (bytes_of r),
      length-append buf (bytes_of r),
      read_loop-bounds fuel fd len sz buf w' n out k,
      read_loop-bounds fuel fd len (sz + result_of r) (buf ++ bytes_of r) w' n out k,
    )

-- On a kernel whose `read` keeps to the count it is given, what `utilReadFromFd` returns is the
-- number of bytes that it has put into the buffer, and no more than the buffer's length.
pub util_read_from_fd-bounds :
    (fuel : ℕ) (fd : ℤ) (len : ℕ) (w : World) (n : ℕ) (out : List ℕ)
    → ReadsWithin w.kernel
    → (util_read_from_fd fuel fd len w).0 ≡ value (n, out)
    → (n ≤ len) × (length out ≡ n)
unfolding util_read_from_fd
util_read_from_fd-bounds fuel fd len w n out k h =
    read_loop-bounds fuel fd len 0 [] w n out k (omega arith) refl h
