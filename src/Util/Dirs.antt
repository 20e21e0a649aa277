-- ===== src/Util/Dirs.antt =====
-- util.c: a whole file, and the directories above a path.
mod Tests
pub mod Closed
pub mod Parents
pub mod Made
pub mod Kept
use nsjail.Common.{
  ℕ, zero, suc, ◌+◌, Bool, true, false, not, Option, none, some, List, [], ◌∷◌, length, ◌==◌,
  if◌then◌else◌,
}
use nsjail.Common.Int.{ℤ, pos, negsuc}
use nsjail.Common.Text.{bytes, snprintf, path_max}
use nsjail.Os.{
  CString, open_file, openat, mkdirat, close, Reply, fail, done, Action, pure, out_of_fuel, sys,
  ◌>>=◌, ◌>>◌, made,
}
use nsjail.Util.{util_read_from_fd}

-- O_RDONLY | O_CLOEXEC
abbrev pub o_rdonly_cloexec : ℕ
o_rdonly_cloexec = 0o2000000

-- O_DIRECTORY | O_CLOEXEC
abbrev pub o_directory_cloexec : ℕ
o_directory_cloexec = 0o2200000

-- The number that the function returns, with what it has read.
unfoldable pub util_read_from_file : ℕ → CString → ℕ → Action (ℤ × List ℕ)
util_read_from_file fuel fname len = do
  r ← sys (open_file fname o_rdonly_cloexec)
  elim r [
    | fail e ↦ pure (negsuc 0, [])
    | done fd out ↦ do
      s ← util_read_from_fd fuel (pos fd) len
      sys (close (pos fd))
      pure (pos s.0, s.1)
  ]

abbrev close_and : Bool → ℕ → Action Bool
close_and ok fd = sys (close (pos fd)) >> pure ok

-- `curr` up to the next '/', and what is behind it; `none` if there is no further '/'.
unfoldable pub component : CString → Option (CString × CString)
component [] = none
component (c ∷ s) =
    if c == b'/'
    then some ([], s)
    else elim (component s) [ none ↦ none | some (name, rest) ↦ some (c ∷ name, rest) ]

unfoldable pub skip_slashes : CString → CString
skip_slashes [] = []
skip_slashes (c ∷ s) = if c == b'/' then skip_slashes s else c ∷ s

-- One directory, below the one that is open as `prev`: the descriptor of the new one.
enter_dir : ℕ → CString → Action (Option ℕ)
enter_dir prev name = do
  m ← sys (mkdirat (pos prev) name 0o755)
  if made m
      then (do
        r ← sys (openat (pos prev) name o_directory_cloexec)
        elim r [
          | fail e ↦ sys (close (pos prev)) >> pure none
          | done fd out ↦ sys (close (pos prev)) >> pure (some fd)
        ])
      else (sys (close (pos prev)) >> pure none)

-- The loop, in which `fuel` bounds the components.
create_loop : ℕ → ℕ → CString → Action Bool
unfolding enter_dir
create_loop zero prev curr = out_of_fuel
create_loop (suc fuel) prev curr = elim (component (skip_slashes curr)) [
  | none ↦ close_and true prev
  | some (name, rest) ↦ do
    next ← enter_dir prev name
    elim next [ none ↦ pure false | some fd ↦ create_loop fuel fd rest ]
]

-- Each component takes a byte of the path, so the path's length and one are rounds enough.
unfoldable pub util_create_dir_recursively : CString → Action Bool
unfolding create_loop
util_create_dir_recursively [] = pure false
util_create_dir_recursively (c ∷ dir) = if not (c == b'/') then pure false else (do
  r ← sys (open_file (bytes "/") o_rdonly_cloexec)
  elim r [
    | fail e ↦ pure false
    | done fd out ↦ let path = snprintf path_max (c ∷ dir) in create_loop (length path + 1) fd path
  ])
