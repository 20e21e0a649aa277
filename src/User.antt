-- ===== src/User.antt =====
-- user.c: the user and group maps of a child. `fuel` bounds the rounds of each write.
mod Tests
pub mod Buffer
pub mod Kept
pub mod Groups
pub mod MapSet
pub mod Mapped
use nsjail.Common.{
  ℕ, ◌-◌, ◌^◌, Bool, true, false, ◌&&◌, not, ◌||◌, Option, none, some, List, [], ◌∷◌, ◌++◌, length,
  take, ltb, ◌==◌, if◌then◌else◌,
}
use nsjail.Common.Int.{ℤ, pos, negsuc}
use nsjail.Common.Text.{bytes, print_ℕ, print_ℤ, snprintf, path_max}
use nsjail.Os.{
  CString, geteuid, system, Reply, Action, pure, wait_forever, sys, failed, result_of, ◌>>=◌,
  ◌and_then◌,
}
use nsjail.Conf.{NsjConf, Mapping}
use nsjail.Util.{util_write_buf_to_file}
use nsjail.Cgroup.{o_wronly}

-- The call has returned 0.
abbrev is_zero : Reply → Bool
is_zero r = not (failed r) && result_of r == 0

abbrev proc_file : ℤ → CString → CString
proc_file pid name = snprintf path_max (bytes "/proc/" ++ (print_ℤ pid ++ (b'/' ∷ name)))

unfoldable pub user_set_groups : ℕ → ℤ → Action Bool
user_set_groups fuel pid = do
  r ← sys geteuid
  if is_zero r
      then pure true
      else util_write_buf_to_file fuel (proc_file pid (bytes "setgroups")) (bytes "deny") o_wronly

abbrev map_line : ℕ → ℕ → CString
map_line inside outside = snprintf 128 (print_ℕ inside ++ (b' ' ∷ (print_ℕ outside ++ bytes " 1")))

unfoldable pub user_uid_map_self : ℕ → NsjConf → ℤ → Action Bool
user_uid_map_self fuel conf pid =
    util_write_buf_to_file fuel (proc_file pid (bytes "uid_map"))
      (map_line conf.inside_uid conf.outside_uid) o_wronly

unfoldable pub user_gid_map_self : ℕ → NsjConf → ℤ → Action Bool
user_gid_map_self fuel conf pid =
    util_write_buf_to_file fuel (proc_file pid (bytes "gid_map"))
      (map_line conf.inside_gid conf.outside_gid) o_wronly

-- `cmd_buf` as the string that it holds, with `len`, the room that is left. `snprintf` writes the
-- text with its final zero as far as there is room, and returns the text's length.
pub record Command : Type 0 where
  pub text : CString
  pub len : ℕ

unfoldable pub append_text : Command → CString → Option Command
append_text cmd t =
    if length t == 0 || ltb cmd.len (length t)
    then none
    else some (record { text = cmd.text ++ take (cmd.len - 1) t; len = cmd.len - length t })

abbrev pub mapping_text : Mapping → CString
mapping_text p = b' ' ∷ (p.inside_id ++ (b' ' ∷ (p.outside_id ++ (b' ' ∷ p.count))))

abbrev try : Option Command → (Command → Option Command) → Option Command
try none f = none
try (some cmd) f = f cmd

unfoldable pub append_mappings : List Mapping → Command → Option Command
append_mappings [] cmd = some cmd
append_mappings (p ∷ ps) cmd = try (append_text cmd (mapping_text p)) (append_mappings ps)

-- `(unsigned long)pid`
abbrev pub ulong_of : ℤ → ℕ
ulong_of (pos n) = n
ulong_of (negsuc n) = 2 ^ 64 - 1 - n

-- The command of a helper, `none` where the function says that it is too long.
unfoldable pub map_command : CString → ℤ → ℕ → ℕ → List Mapping → Option Command
map_command helper pid inside outside ps =
    try
      (append_text (record { text = []; len = 1024 })
        (helper
          ++ (b' '
              ∷ (print_ℕ (ulong_of pid)
                  ++ (b' ' ∷ (print_ℕ inside ++ (b' ' ∷ (print_ℕ outside ++ bytes " 1"))))))))
      (append_mappings ps)

-- A failure of `newgidmap` ends in `while(1);`.
pub run_gid_command : Option Command → Action Bool
run_gid_command none = pure false
run_gid_command (some cmd) = do
  r ← sys (system cmd.text)
  if is_zero r then pure true else wait_forever

unfoldable pub user_gid_map_external : NsjConf → ℤ → Action Bool
unfolding run_gid_command
user_gid_map_external conf pid = run_gid_command (
    map_command (bytes "/usr/bin/newgidmap") pid conf.inside_gid conf.outside_gid conf.gid_mappings)

pub run_uid_command : Option Command → Action Bool
run_uid_command none = pure false
run_uid_command (some cmd) = do r ← sys (system cmd.text); pure (is_zero r)

unfoldable pub user_uid_map_external : NsjConf → ℤ → Action Bool
unfolding run_uid_command
user_uid_map_external conf pid = run_uid_command (
    map_command (bytes "/usr/bin/newuidmap") pid conf.inside_uid conf.outside_uid conf.uid_mappings)

unfoldable pub user_uid_gid_map : ℕ → NsjConf → ℤ → Action Bool
user_uid_gid_map fuel conf pid =
    (if length conf.gid_mappings == 0
      then user_gid_map_self fuel conf pid
      else user_gid_map_external conf pid)
    and_then (if length conf.uid_mappings == 0
        then user_uid_map_self fuel conf pid
        else user_uid_map_external conf pid)

unfoldable pub user_init_ns_from_parent : ℕ → NsjConf → ℤ → Action Bool
user_init_ns_from_parent fuel conf pid =
    if conf.clone_newuser
    then user_set_groups fuel pid and_then user_uid_gid_map fuel conf pid
    else pure true
