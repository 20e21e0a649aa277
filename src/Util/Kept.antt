-- ===== src/Util/Kept.antt =====
-- util.c: reading and writing files executes no program.
use nsjail.Common.{ℕ, zero, suc, ◌+◌, ◌-◌, Bool, true, false, List, [], ◌++◌, length, drop, ltb}
use nsjail.Common.Int.{ℤ}
use nsjail.Os.{CString, read, write, Reply, fail, done, pure, sys, ◌>>=◌}
use nsjail.Os.Quiet.{Quiet, Quiet-pure, Quiet-out_of_fuel, Quiet-bind, quiet_rules}
use nsjail.Util.{
  Round, again, stop, advance, read_round, bytes_of, read_loop, util_read_from_fd, write_round,
  write_loop, util_write_to_fd, write_opened, util_write_buf_to_file,
}

round-Quiet :
    (fuel : ℕ) (fd : ℤ) (rest : List ℕ)
    → ((rest : List ℕ) → Quiet (write_loop fuel fd rest))
    → (r : Round)
    → Quiet (elim r [
      | again ↦ write_loop fuel fd rest
      | stop ↦ pure false
      | advance n ↦ write_loop fuel fd (drop n rest)
    ])
round-Quiet fuel fd rest ih again = ih rest
round-Quiet fuel fd rest ih stop = Quiet-pure false
round-Quiet fuel fd rest ih (advance n) = ih (drop n rest)

write_loop-Quiet : (fuel : ℕ) (fd : ℤ) (rest : List ℕ) → Quiet (write_loop fuel fd rest)
unfolding write_loop
write_loop-Quiet zero fd rest = Quiet-out_of_fuel
write_loop-Quiet (suc fuel) fd rest = go (ltb 0 (length rest)) (write_loop-Quiet fuel fd)
  where
    go :
        (left : Bool)
        → ((rest : List ℕ) → Quiet (write_loop fuel fd rest))
        → Quiet (elim left [
          | false ↦ pure true
          | true ↦ do
            r ← sys (write fd rest)
            elim (write_round r) [
              | again ↦ write_loop fuel fd rest
              | stop ↦ pure false
              | advance n ↦ write_loop fuel fd (drop n rest)
            ]
        ])
    go false ih = Quiet-pure true
    go true ih =
        Quiet-bind (sys (write fd rest)) _ (search quiet_rules)
          (λ r. round-Quiet fuel fd rest ih (write_round r))

pub util_write_to_fd-Quiet :
    (fuel : ℕ) (fd : ℤ) (buf : List ℕ) → Quiet (util_write_to_fd fuel fd buf)
unfolding util_write_to_fd
util_write_to_fd-Quiet = write_loop-Quiet

opened-Quiet :
    (fuel : ℕ) (name : CString) (buf : List ℕ) (r : Reply)
    → Quiet (elim r [ fail e ↦ pure false | done fd out ↦ write_opened fuel name buf fd ])
unfolding write_opened
opened-Quiet fuel name buf (fail e) = Quiet-pure false
opened-Quiet fuel name buf (done fd out) = search (quiet_rules, util_write_to_fd-Quiet)

pub util_write_buf_to_file-Quiet :
    (fuel : ℕ) (name : CString) (buf : List ℕ) (flags : ℕ)
    → Quiet (util_write_buf_to_file fuel name buf flags)
unfolding util_write_buf_to_file
util_write_buf_to_file-Quiet fuel name buf flags = search (quiet_rules, opened-Quiet)

read_round-Quiet :
    (fuel : ℕ) (fd : ℤ) (len read_sz : ℕ) (buf got : List ℕ)
    → ((read_sz : ℕ) (buf : List ℕ) → Quiet (read_loop fuel fd len read_sz buf))
    → (r : Round)
    → Quiet (elim r [
      | again ↦ read_loop fuel fd len read_sz buf
      | stop ↦ pure (read_sz, buf)
      | advance n ↦ read_loop fuel fd len (read_sz + n) (buf ++ got)
    ])
read_round-Quiet fuel fd len read_sz buf got ih again = ih read_sz buf
read_round-Quiet fuel fd len read_sz buf got ih stop = Quiet-pure (read_sz, buf)
read_round-Quiet fuel fd len read_sz buf got ih (advance n) = ih (read_sz + n) (buf ++ got)

read_loop-Quiet :
    (fuel : ℕ) (fd : ℤ) (len read_sz : ℕ) (buf : List ℕ) → Quiet (read_loop fuel fd len read_sz buf)
unfolding read_loop
read_loop-Quiet zero fd len read_sz buf = Quiet-out_of_fuel
read_loop-Quiet (suc fuel) fd len read_sz buf = go (ltb read_sz len) (read_loop-Quiet fuel fd len)
  where
    go :
        (left : Bool)
        → ((read_sz : ℕ) (buf : List ℕ) → Quiet (read_loop fuel fd len read_sz buf))
        → Quiet {A = ℕ × List ℕ} (elim left [
          | false ↦ pure (read_sz, buf)
          | true ↦ do
            r ← sys (read fd (len - read_sz))
            elim (read_round r) [
              | again ↦ read_loop fuel fd len read_sz buf
              | stop ↦ pure (read_sz, buf)
              | advance n ↦ read_loop fuel fd len (read_sz + n) (buf ++ bytes_of r)
            ]
        ])
    go false ih = Quiet-pure (read_sz, buf)
    go true ih =
        Quiet-bind (sys (read fd (len - read_sz))) _ (search quiet_rules)
          (λ r. read_round-Quiet fuel fd len read_sz buf (bytes_of r) ih (read_round r))

pub util_read_from_fd-Quiet : (fuel : ℕ) (fd : ℤ) (len : ℕ) → Quiet (util_read_from_fd fuel fd len)
unfolding util_read_from_fd
util_read_from_fd-Quiet fuel fd len = read_loop-Quiet fuel fd len 0 []
