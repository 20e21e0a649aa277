-- ===== src/User/Kept.antt =====
-- user.c: setting the maps of a user namespace executes no program by `execv`.
use nsjail.Common.{ℕ, false, Option, none, some, length, ◌==◌, if◌then◌else◌}
use nsjail.Common.Int.{ℤ}
use nsjail.Os.Quiet.{Quiet, Quiet-pure, quiet_rules}
use nsjail.Conf.{NsjConf}
use nsjail.Util.Kept.{util_write_buf_to_file-Quiet}
use nsjail.User.{
  Command, user_set_groups, run_gid_command, run_uid_command, user_uid_map_self, user_gid_map_self,
  user_uid_map_external, user_gid_map_external, user_uid_gid_map, user_init_ns_from_parent,
}

run_uid_command-Quiet : (command : Option Command) → Quiet (run_uid_command command)
unfolding run_uid_command
run_uid_command-Quiet none = Quiet-pure false
run_uid_command-Quiet (some cmd) = search quiet_rules

run_gid_command-Quiet : (command : Option Command) → Quiet (run_gid_command command)
unfolding run_gid_command
run_gid_command-Quiet none = Quiet-pure false
run_gid_command-Quiet (some cmd) = search quiet_rules

module _ (fuel : ℕ) (conf : NsjConf) (pid : ℤ) where
  pub gid_step-Quiet : Quiet (
      if length conf.gid_mappings == 0
      then user_gid_map_self fuel conf pid
      else user_gid_map_external conf pid)
  unfolding user_gid_map_self user_gid_map_external
  gid_step-Quiet = search (quiet_rules, util_write_buf_to_file-Quiet, run_gid_command-Quiet)

  pub uid_step-Quiet : Quiet (
      if length conf.uid_mappings == 0
      then user_uid_map_self fuel conf pid
      else user_uid_map_external conf pid)
  unfolding user_uid_map_self user_uid_map_external
  uid_step-Quiet = search (quiet_rules, util_write_buf_to_file-Quiet, run_uid_command-Quiet)

  pub user_init_ns_from_parent-Quiet : Quiet (user_init_ns_from_parent fuel conf pid)
  unfolding user_init_ns_from_parent user_uid_gid_map user_set_groups
  user_init_ns_from_parent-Quiet =
      search (quiet_rules, gid_step-Quiet, uid_step-Quiet, util_write_buf_to_file-Quiet) depth 9
