-- ===== src/Util.antt =====
-- util.c: reading and writing a whole buffer.
mod Tests
pub mod Dirs
pub mod Read
pub mod Write
pub mod Put
pub mod Kept
use nsjail.Common.{
  ℕ, zero, suc, ◌+◌, ◌-◌, Bool, true, false, List, [], ◌++◌, length, drop, ltb, ◌==◌, if◌then◌else◌,
}
use nsjail.Common.Int.{ℤ, pos, negsuc}
use nsjail.Os.{
  CString, read, write, open_file, close, unlink, Reply, fail, done, out_of_fuel, Action, pure, sys,
  ◌>>=◌, ◌>>◌,
}

abbrev pub eintr : ℕ
eintr = 4

-- What a round of the read loop does on an answer: `again` from the same place, stop, or go on.
pub data Round : Type 0 where
  again stop : Round
  advance : ℕ → Round

abbrev pub read_round : Reply → Round
read_round (fail e) = if e == eintr then again else stop
read_round (done zero out) = stop
read_round (done (suc n) out) = advance (suc n)

abbrev pub bytes_of : Reply → List ℕ
bytes_of (fail e) = []
bytes_of (done n out) = out

-- The loop of `utilReadFromFd`, from `read_sz` bytes on: the number of bytes that the function
-- returns, and what it has put into the buffer. `fuel` bounds the rounds.
read_loop : ℕ → ℤ → ℕ → ℕ → List ℕ → Action (ℕ × List ℕ)
read_loop zero fd len read_sz buf = out_of_fuel
read_loop (suc fuel) fd len read_sz buf = elim (ltb read_sz len) [
  | false ↦ pure (read_sz, buf)
  | true ↦ do
    r ← sys (read fd (len - read_sz))
    elim (read_round r) [
      | again ↦ read_loop fuel fd len read_sz buf
      | stop ↦ pure (read_sz, buf)
      | advance n ↦ read_loop fuel fd len (read_sz + n) (buf ++ bytes_of r)
    ]
]

unfoldable pub util_read_from_fd : ℕ → ℤ → ℕ → Action (ℕ × List ℕ)
unfolding read_loop
util_read_from_fd fuel fd len = read_loop fuel fd len 0 []

abbrev pub write_round : Reply → Round
write_round (fail e) = if e == eintr then again else stop
write_round (done n out) = advance n

-- The loop of `utilWriteToFd`, with `rest` not yet written. The function returns a C truth value.
write_loop : ℕ → ℤ → List ℕ → Action Bool
write_loop zero fd rest = out_of_fuel
write_loop (suc fuel) fd rest = elim (ltb 0 (length rest)) [
  | false ↦ pure true
  | true ↦ do
    r ← sys (write fd rest)
    elim (write_round r) [
      | again ↦ write_loop fuel fd rest
      | stop ↦ pure false
      | advance n ↦ write_loop fuel fd (drop n rest)
    ]
]

unfoldable pub util_write_to_fd : ℕ → ℤ → List ℕ → Action Bool
unfolding write_loop
util_write_to_fd fuel fd buf = write_loop fuel fd buf

-- After `open` has succeeded.
write_opened : ℕ → CString → List ℕ → ℕ → Action Bool
write_opened fuel filename buf fd = do
  ok ← util_write_to_fd fuel (pos fd) buf
  if ok
      then sys (close (pos fd)) >> pure true
      else sys (close (pos fd)) >> sys (unlink filename) >> pure false

unfoldable pub util_write_buf_to_file : ℕ → CString → List ℕ → ℕ → Action Bool
unfolding write_opened
util_write_buf_to_file fuel filename buf open_flags = do
  r ← sys (open_file filename open_flags)
  elim r [ fail e ↦ pure false | done fd out ↦ write_opened fuel filename buf fd ]
