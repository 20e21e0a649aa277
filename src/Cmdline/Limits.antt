-- ===== src/Cmdline/Limits.antt =====
-- `cmdlineParseRLimit` (cmdline.c): which numbers it takes, and which it refuses.
use nsjail.Common.{
  ℕ, ◌-◌, ◌*◌, ◌%◌, ◌^◌, ◌<◌, ◌≤◌, ◌≡◌, true, false, List, ◌∷◌, ◌==◌, ◌||◌, ◌&&◌, not,
  if◌then◌else◌, arith,
}
use nsjail.Common.Text.{bytes}
use nsjail.Os.{
  CString, getrlimit, strtoull, Reply, fail, done, World, Outcome, value, exited, Action, exit,
  pure, ◌>>=◌,
}
use nsjail.Cmdline.Values.{
  cmdline_is_a_number, cmdline_parse_r_limit, numeric_limit, eq_nocase, ull_of, errno_left,
}

-- A number whose product with `mul` a limit can hold, or a failure that says why.
abbrev pub Fits : ℕ → Reply → Type 0
Fits mul (fail e) = 0 < e
Fits mul (done n out) = n * mul < 2 ^ 64 - 1

-- The limit that is set for `strtoull`'s reply.
abbrev pub limit_for : ℕ → Reply → Outcome ℕ
limit_for mul (fail e) = if mul == 1 then exited 1 else value (2 ^ 64 - mul)
limit_for mul (done n out) = value (n * mul)

wrapped : (mul : ℕ) → 0 < mul → mul ≤ 2 ^ 64 → (2 ^ 64 - 1) * mul % 2 ^ 64 ≡ 2 ^ 64 - mul
wrapped mul p b = omega arith

abbrev checked : ℕ → ℕ → ℕ → Action ℕ
checked n mul e =
    if (n * mul % 2 ^ 64 == 2 ^ 64 - 1) && not (e == 0) then exit 1 else pure (n * mul % 2 ^ 64)

checked-wraps :
    (mul e : ℕ) (w : World)
    → 0 < mul
    → mul ≤ 2 ^ 64
    → 0 < e
    → (checked (2 ^ 64 - 1) mul e w).0 ≡ (if mul == 1 then exited 1 else value (2 ^ 64 - mul))
checked-wraps mul e w p b nz = rw (wrapped mul p b) (ground arith)

le_product : (n mul : ℕ) → 0 < mul → n ≤ n * mul
le_product n mul p = grind arith

checked-fits :
    (n mul e : ℕ) (w : World) → n * mul < 2 ^ 64 - 1 → (checked n mul e w).0 ≡ value (n * mul)
checked-fits n mul e w fits =
    let whole : n * mul % 2 ^ 64 ≡ n * mul = omega arith in rw whole (ground arith)

small : (n mul : ℕ) → 0 < mul → n * mul < 2 ^ 64 - 1 → n % 2 ^ 64 ≡ n
small n mul p fits = let le = le_product n mul p in omega arith

checked-limit_for :
    (r : Reply) (mul : ℕ) (w : World)
    → 0 < mul
    → mul ≤ 2 ^ 64
    → Fits mul r
    → ((errno_left r >>= checked (ull_of r) mul) w).0 ≡ limit_for mul r
checked-limit_for (fail e) mul w p b fits = checked-wraps mul e w p b fits
checked-limit_for (done n out) mul w p b fits = rw (small n mul p fits) (ground arith)

-- `numeric_limit` behind its call of `strtoull`.
numeric_limit-outcome :
    (optarg : CString) (mul : ℕ) (w : World)
    → cmdline_is_a_number optarg ≡ true
    → 0 < mul
    → mul ≤ 2 ^ 64
    → Fits mul (w.kernel w.log (strtoull optarg))
    → (numeric_limit optarg mul w).0 ≡ limit_for mul (w.kernel w.log (strtoull optarg))
unfolding numeric_limit
numeric_limit-outcome optarg mul w number p b fits =
    let r = w.kernel w.log (strtoull optarg) in
    rw number (checked-limit_for r mul (record w { log = (strtoull optarg, r) ∷ w.log }) p b fits)

-- `cmdlineParseRLimit` on a number, neither "max" nor "def", with `mul` from 1 to 2 ^ 64, while the
-- process can read the limit: where `strtoull` takes the number and its product with `mul` is
-- below 2 ^ 64 - 1, that product is the limit; where `strtoull` fails with an error number, the
-- program exits if `mul` is 1, and else goes on with the limit 2 ^ 64 - mul.
pub cmdline_parse_r_limit-limit_for :
    (res n : ℕ) (cur : List ℕ) (optarg : CString) (mul : ℕ) (w : World)
    → w.kernel w.log (getrlimit res) ≡ done n cur
    → eq_nocase optarg (bytes "max") || eq_nocase optarg (bytes "def") ≡ false
    → cmdline_is_a_number optarg ≡ true
    → 0 < mul
    → mul ≤ 2 ^ 64
    → Fits mul (w.kernel ((getrlimit res, done n cur) ∷ w.log) (strtoull optarg))
    → (cmdline_parse_r_limit res optarg mul w).0
      ≡ limit_for mul (w.kernel ((getrlimit res, done n cur) ∷ w.log) (strtoull optarg))
unfolding cmdline_parse_r_limit
cmdline_parse_r_limit-limit_for res n cur optarg mul w read other number p b fits = rw read (
    ground (
      arith,
      numeric_limit-outcome optarg mul (record w { log = (getrlimit res, done n cur) ∷ w.log })
          number p b fits,
    ))
