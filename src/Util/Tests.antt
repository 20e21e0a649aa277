-- ===== src/Util/Tests.antt =====
-- Reads and writes that a signal interrupts and that the kernel cuts short.
use nsjail.Common.{ℕ, ◌+◌, ◌≤◌, ◌≡◌, refl, [], ◌∷◌, length, zero, suc, true, arith}
use nsjail.Common.Int.{pos}
use nsjail.Os.{Syscall, Reply, Kernel, World, read, fail, done, value, unfinished}
use nsjail.Os.Laws.{interrupts}
use nsjail.Util.{util_read_from_fd, util_write_to_fd}
use nsjail.Util.Read.{ReadsWithin, util_read_from_fd-fuel, util_read_from_fd-bounds}
use nsjail.Util.Write.{written, idles, util_write_to_fd-fuel, util_write_to_fd-written}

-- The first call is interrupted; a read then returns one byte, 65, and a write takes one byte.
abbrev answer : Syscall → Reply
answer (read fd zero) = done 0 []
answer (read fd (suc n)) = done 1 (65 ∷ [])
answer c = done 1 []

abbrev slow : Kernel
slow [] c = fail 4
slow (e ∷ log) c = answer c

abbrev start : World
start = record { kernel = slow; log = [] }

slow-ReadsWithin : ReadsWithin slow
slow-ReadsWithin [] fd n m out h = absurd (ground arith)
slow-ReadsWithin (e ∷ log) fd zero m out h = ground arith
slow-ReadsWithin (e ∷ log) fd (suc n) m out h = ground arith

read_two : (util_read_from_fd 4 (pos 3) 2 start).0 ≡ value (2, 65 ∷ 65 ∷ [])
unfolding util_read_from_fd
read_two = refl

read_short : (util_read_from_fd 2 (pos 3) 2 start).0 ≡ unfinished
unfolding util_read_from_fd
read_short = refl

write_two : (util_write_to_fd 4 (pos 3) (1 ∷ 2 ∷ []) start).0 ≡ value true
unfolding util_write_to_fd
write_two = refl

write_short : (util_write_to_fd 2 (pos 3) (1 ∷ 2 ∷ []) start).0 ≡ unfinished
unfolding util_write_to_fd
write_short = refl

util_read_from_fd-bounds_example : (2 ≤ 2) × (length {A = ℕ} (65 ∷ 65 ∷ []) ≡ 2)
util_read_from_fd-bounds_example =
    util_read_from_fd-bounds 4 (pos 3) 2 start 2 (65 ∷ 65 ∷ []) slow-ReadsWithin read_two

util_read_from_fd-fuel_example : 2 + 0 ≤ 2 + interrupts (util_read_from_fd 2 (pos 3) 2 start).1.log
util_read_from_fd-fuel_example = util_read_from_fd-fuel 2 (pos 3) 2 start read_short

util_write_to_fd-written_example :
    written (pos 3) (util_write_to_fd 4 (pos 3) (1 ∷ 2 ∷ []) start).1.log ≡ 1 ∷ 2 ∷ []
util_write_to_fd-written_example = util_write_to_fd-written 4 (pos 3) (1 ∷ 2 ∷ []) start write_two

util_write_to_fd-fuel_example :
    2 + 0 ≤ 2 + idles (util_write_to_fd 2 (pos 3) (1 ∷ 2 ∷ []) start).1.log
util_write_to_fd-fuel_example = util_write_to_fd-fuel 2 (pos 3) (1 ∷ 2 ∷ []) start write_short
