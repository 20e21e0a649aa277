-- ===== src/Cmdline/Values.antt =====
-- cmdline.c: the values of options: numbers, limits, texts with colons, users and groups.
use nsjail.Common.{
  ℕ, ◌+◌, ◌-◌, ◌*◌, ◌%◌, ◌^◌, Bool, true, false, not, ◌&&◌, ◌||◌, Option, none, some, [], ◌∷◌, map,
  get_or, ltb, leb, ◌==◌, if◌then◌else◌,
}
use nsjail.Common.Int.{ℤ, pos, sub_ℕ}
use nsjail.Common.Text.{bytes, eq_bytes}
use nsjail.Os.{
  CString, Syscall, getrlimit, strtoull, getpwnam, getgrnam, indeterminate, Reply, fail, done,
  Action, pure, exit, sys, result_of, ◌>>=◌,
}
use nsjail.Conf.{NsjConf}

abbrev is_digit : ℕ → Bool
is_digit c = leb b'0' c && leb c b'9'

unfoldable pub cmdline_is_a_number : CString → Bool
cmdline_is_a_number [] = true
cmdline_is_a_number (c ∷ s) = (is_digit c || c == b'x') && cmdline_is_a_number s

-- What `strtoull` has returned: ULLONG_MAX where it failed.
abbrev pub ull_of : Reply → ℕ
ull_of (fail e) = 2 ^ 64 - 1
ull_of (done n out) = n % 2 ^ 64

-- The `long` of a 64-bit pattern. `strtol` fails with LONG_MAX; LONG_MIN is a value like others.
abbrev pub to_long : ℕ → ℤ
to_long n = if ltb (n % 2 ^ 64) (2 ^ 63) then pos (n % 2 ^ 64) else sub_ℕ (n % 2 ^ 64) (2 ^ 64)

abbrev pub long_of : Reply → ℕ
long_of (fail e) = 2 ^ 63 - 1
long_of (done n out) = n % 2 ^ 64

-- `errno` after a call: a call that has not failed leaves there what was there before.
abbrev pub errno_left : Reply → Action ℕ
errno_left (fail e) = pure e
errno_left (done n out) = do r ← sys indeterminate; pure (result_of r)

abbrev to_lower : ℕ → ℕ
to_lower c = if leb b'A' c && leb c b'Z' then c + 32 else c

-- `strcasecmp(s, t) == 0`, for a `t` in lower case.
abbrev pub eq_nocase : CString → CString → Bool
eq_nocase s t = eq_bytes (map to_lower s) t

-- The number of a limit, times `mul`. LOG_F and PLOG_F exit.
unfoldable pub numeric_limit : CString → ℕ → Action ℕ
numeric_limit optarg mul = if not (cmdline_is_a_number optarg) then exit 1 else (do
  r ← sys (strtoull optarg)
  e ← errno_left r
  if (ull_of r * mul % 2 ^ 64 == 2 ^ 64 - 1) && not (e == 0)
      then exit 1
      else pure (ull_of r * mul % 2 ^ 64))

unfoldable pub cmdline_parse_r_limit : ℕ → CString → ℕ → Action ℕ
unfolding numeric_limit
cmdline_parse_r_limit res optarg mul = do
  r ← sys (getrlimit res)
  elim r [
    | fail e ↦ exit 1
    | done n cur ↦
        if eq_nocase optarg (bytes "max")
        then pure (get_or cur 1 0)
        else if eq_nocase optarg (bytes "def")
        then pure (get_or cur 0 0)
        else numeric_limit optarg mul
  ]

-- The text that `spec` has become and, if there was a colon, the text behind it. `none` is that
-- the pointer returned is `spec`.
unfoldable pub cmdline_split_str_by_colon : CString → CString × Option CString
cmdline_split_str_by_colon [] = ([], none)
cmdline_split_str_by_colon (c ∷ s) =
    let (first, second) = cmdline_split_str_by_colon s in
    if c == b':' then ([], some s) else (c ∷ first, second)

-- The pointer that is returned.
abbrev pub pointed : CString × Option CString → CString
pointed (first, none) = first
pointed (first, some second) = second

-- An entry of the user or the group database, or a number.
unfoldable pub id_of : Syscall → CString → Action (Option ℕ)
id_of lookup name = do
  r ← sys lookup
  elim r [
    | done id out ↦ pure (some id)
    | fail e ↦
        if cmdline_is_a_number name
        then (sys (strtoull name) >>= λ n. pure (some (ull_of n % 2 ^ 32)))
        else pure none
  ]

unfoldable pub second_uid : NsjConf → Option CString → Action (Bool × NsjConf)
second_uid conf none = pure (true, conf)
second_uid conf (some second) = do
  id ← id_of (getpwnam second) second
  elim id [ none ↦ pure (false, conf) | some uid ↦ pure (true, record conf { outside_uid = uid }) ]

unfoldable pub cmdline_parse_uid : NsjConf → Option CString → Action (Bool × NsjConf)
unfolding second_uid
cmdline_parse_uid conf none = pure (true, conf)
cmdline_parse_uid conf (some str) = do
  let (first, second) = cmdline_split_str_by_colon str
  id ← id_of (getpwnam first) first
  elim id [
    | none ↦ pure (false, conf)
    | some uid ↦ second_uid (record conf { inside_uid = uid }) second
  ]

unfoldable pub second_gid : NsjConf → Option CString → Action (Bool × NsjConf)
second_gid conf none = pure (true, conf)
second_gid conf (some second) = do
  id ← id_of (getgrnam second) second
  elim id [ none ↦ pure (false, conf) | some gid ↦ pure (true, record conf { outside_gid = gid }) ]

unfoldable pub cmdline_parse_gid : NsjConf → Option CString → Action (Bool × NsjConf)
unfolding second_gid
cmdline_parse_gid conf none = pure (true, conf)
cmdline_parse_gid conf (some str) = do
  let (first, second) = cmdline_split_str_by_colon str
  id ← id_of (getgrnam first) first
  elim id [
    | none ↦ pure (false, conf)
    | some gid ↦ second_gid (record conf { inside_gid = gid }) second
  ]
