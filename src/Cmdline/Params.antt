-- ===== src/Cmdline/Params.antt =====
-- cmdline.c: `cmdlineLogParams`, the messages that it logs, in order.
use nsjail.Common.{
  ℕ, zero, suc, ◌+◌, ◌-◌, ◌/◌, ◌%◌, Bool, true, false, Option, none, some, List, [], ◌∷◌, ◌++◌, map,
  ltb, ◌==◌, if◌then◌else◌,
}
use nsjail.Common.Text.{bytes, concat, print_ℕ, print_ℤ}
use nsjail.Os.{CString}
use nsjail.Conf.{
  NsjConf, NsMode, MountPt, Mapping, listen_tcp, standalone_once, standalone_execve,
  standalone_rerun,
}
use nsjail.Log.Line.{LLevel, info}

abbrev hex_digit : ℕ → ℕ
hex_digit d = if ltb d 10 then b'0' + d else b'a' + (d - 10)

-- The digits of `n`, given more fuel than digits.
hex_digits : ℕ → ℕ → CString
hex_digits zero n = []
hex_digits (suc fuel) n =
    let front = hex_digits fuel (n / 16) in
    if ltb n 16 then hex_digit n ∷ [] else front ++ hex_digit (n % 16) ∷ []

-- `%tx`
unfoldable pub print_hex : ℕ → CString
unfolding hex_digits
print_hex n = hex_digits (n + 1) n

-- `%#lx`
unfoldable pub print_hex_marked : ℕ → CString
unfolding print_hex
print_hex_marked n = if n == 0 then bytes "0" else bytes "0x" ++ print_hex n

abbrev pub log_yes_no : Bool → CString
log_yes_no true = bytes "true"
log_yes_no false = bytes "false"

abbrev mode_name : NsMode → CString
mode_name listen_tcp = bytes "LISTEN_TCP"
mode_name standalone_once = bytes "STANDALONE_ONCE"
mode_name standalone_execve = bytes "STANDALONE_EXECVE"
mode_name standalone_rerun = bytes "STANDALONE_RERUN"

-- The program, unless there are no arguments.
abbrev first : List CString → Option CString
first [] = none
first (arg ∷ args) = some arg

mapping_line : CString → Mapping → CString
unfolding concat
mapping_line kind m = concat (
    kind
    ∷ m.inside_id
    ∷ bytes "' outside_uid:'"
    ∷ m.outside_id
    ∷ bytes "' count:'"
    ∷ m.count
    ∷ bytes "'"
    ∷ [])

settings_text : NsjConf → CString
unfolding concat
settings_text conf = concat (
    bytes ", daemonize:"
    ∷ log_yes_no conf.daemonize
    ∷ bytes ", clone_newnet:"
    ∷ log_yes_no conf.clone_newnet
    ∷ bytes ", clone_newuser:"
    ∷ log_yes_no conf.clone_newuser
    ∷ bytes ", clone_newns:"
    ∷ log_yes_no conf.clone_newns
    ∷ bytes ", clone_newpid:"
    ∷ log_yes_no conf.clone_newpid
    ∷ bytes ", clone_newipc:"
    ∷ log_yes_no conf.clone_newipc
    ∷ bytes ", clonew_newuts:"
    ∷ log_yes_no conf.clone_newuts
    ∷ bytes ", clone_newcgroup:"
    ∷ log_yes_no conf.clone_newcgroup
    ∷ bytes ", apply_sandbox:"
    ∷ log_yes_no conf.apply_sandbox
    ∷ bytes ", keep_caps:"
    ∷ log_yes_no conf.keep_caps
    ∷ bytes ", disable_no_new_privs:"
    ∷ log_yes_no conf.disable_no_new_privs
    ∷ bytes ",tmpfs_size:"
    ∷ print_ℕ conf.tmpfs_size
    ∷ bytes ", pivot_root_only:"
    ∷ log_yes_no conf.pivot_root_only
    ∷ [])

-- A `char *` that is NULL is printed as `null`.
module _ (null : CString) where
  abbrev shown : Option CString → CString
  shown none = null
  shown (some text) = text

  mount_line : MountPt → CString
  unfolding concat
  mount_line p = concat (
      bytes "Mount point: src:'"
      ∷ shown p.src
      ∷ bytes "' dst:'"
      ∷ p.dst
      ∷ bytes "' type:'"
      ∷ p.fs_type
      ∷ bytes "' flags:0x"
      ∷ print_hex p.flags
      ∷ bytes " options:'"
      ∷ p.options
      ∷ bytes "'"
      ∷ [])

  jail_line : NsjConf → CString
  unfolding concat
  jail_line conf = concat (
      bytes "Jail parameters: hostname:'"
      ∷ conf.hostname
      ∷ bytes "', chroot:'"
      ∷ shown conf.chroot
      ∷ bytes "', process:'"
      ∷ shown (first conf.argv)
      ∷ bytes "', bind:["
      ∷ conf.bindhost
      ∷ bytes "]:"
      ∷ print_ℤ conf.port
      ∷ bytes ", max_conns_per_ip:"
      ∷ print_ℕ conf.max_conns_per_ip
      ∷ bytes ", uid:(ns:"
      ∷ print_ℕ conf.inside_uid
      ∷ bytes ", global:"
      ∷ print_ℕ conf.outside_uid
      ∷ bytes "), gid:(ns:"
      ∷ print_ℕ conf.inside_gid
      ∷ bytes ", global:"
      ∷ print_ℕ conf.outside_gid
      ∷ bytes "), time_limit:"
      ∷ print_ℤ conf.tlimit
      ∷ bytes ", personality:"
      ∷ print_hex_marked conf.personality
      ∷ settings_text conf
      ∷ [])

  unfoldable pub cmdline_log_params : NsjConf → List (LLevel × CString)
  unfolding mount_line jail_line mapping_line settings_text
  cmdline_log_params conf =
      map (λ text. (info, text))
        ((bytes "Mode: " ++ mode_name conf.mode)
          ∷ jail_line conf
          ∷ (map mount_line conf.mountpts
              ++ (map (mapping_line (bytes "Uid mapping: inside_uid:'")) conf.uid_mappings
                  ++ map (mapping_line (bytes "Gid mapping: inside_uid:'")) conf.gid_mappings)))
