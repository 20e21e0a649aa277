-- ===== src/User/Mapped.antt =====
-- user.c: what the parent leaves of the child's user and group maps.
use nsjail.Common.{ℕ, Bool, true, false, Option, length, ◌==◌, if◌then◌else◌}
use nsjail.Common.Int.{ℤ}
use nsjail.Common.Text.{bytes}
use nsjail.Os.{CString, Action, pure, ◌and_then◌}
use nsjail.Os.Done.{Makes, Makes-second, Makes-both, Makes-early}
use nsjail.Conf.{NsjConf}
use nsjail.Cgroup.{o_wronly}
use nsjail.Util.Put.{IsPut, util_write_buf_to_file-IsPut}
use nsjail.User.Kept.{gid_step-Quiet, uid_step-Quiet}
use nsjail.Os.Quiet.{quiet_rules}
use nsjail.User.Groups.{GroupsDenied, GroupsDenied-IsLasting, user_set_groups-GroupsDenied}
use nsjail.User.{
  Command, proc_file, map_line, user_set_groups, user_uid_map_self, user_gid_map_self,
  user_gid_map_external, user_uid_map_external, user_uid_gid_map, user_init_ns_from_parent,
}
use nsjail.User.MapSet.{
  Maps, IsHelped, MapSet, MapSet-IsLasting, gid_command, uid_command, GidMapSet, UidMapSet,
  MappedIf, run_gid_command-IsHelped, run_uid_command-IsHelped,
}

choose :
    (b : Bool) (file line : CString) (command : Option Command) (m n : Action Bool)
    → Makes (IsPut file o_wronly line) m
    → Makes (IsHelped command) n
    → Makes (MapSet b file line command) (if b then m else n)
choose true file line command m n mm mn = mm
choose false file line command m n mm mn = mn

module _ (fuel : ℕ) (conf : NsjConf) (pid : ℤ) where
  abbrev gid_step : Action Bool
  gid_step =
      if length conf.gid_mappings == 0
      then user_gid_map_self fuel conf pid
      else user_gid_map_external conf pid

  abbrev uid_step : Action Bool
  uid_step =
      if length conf.uid_mappings == 0
      then user_uid_map_self fuel conf pid
      else user_uid_map_external conf pid

  gid_step-GidMapSet : Makes (GidMapSet conf pid) gid_step
  unfolding user_gid_map_self user_gid_map_external
  gid_step-GidMapSet =
      choose (length conf.gid_mappings == 0) (proc_file pid (bytes "gid_map"))
        (map_line conf.inside_gid conf.outside_gid) (gid_command conf pid)
        (user_gid_map_self fuel conf pid) (user_gid_map_external conf pid)
        (util_write_buf_to_file-IsPut fuel _ _ o_wronly)
        (run_gid_command-IsHelped (gid_command conf pid))

  uid_step-UidMapSet : Makes (UidMapSet conf pid) uid_step
  unfolding user_uid_map_self user_uid_map_external
  uid_step-UidMapSet =
      choose (length conf.uid_mappings == 0) (proc_file pid (bytes "uid_map"))
        (map_line conf.inside_uid conf.outside_uid) (uid_command conf pid)
        (user_uid_map_self fuel conf pid) (user_uid_map_external conf pid)
        (util_write_buf_to_file-IsPut fuel _ _ o_wronly)
        (run_uid_command-IsHelped (uid_command conf pid))

  mapped :
      (b : Bool)
      → Makes (MappedIf b conf pid) (
          if b then user_set_groups fuel pid and_then user_uid_gid_map fuel conf pid else pure true)
  unfolding user_uid_gid_map
  mapped false = record { at = λ w h. tt }
  mapped true =
      let maps : Action Bool = gid_step and_then uid_step in
      Makes-both (GroupsDenied pid) (Maps conf pid) (user_set_groups fuel pid and_then maps)
        (Makes-early (GroupsDenied pid) (GroupsDenied-IsLasting pid) (user_set_groups fuel pid) maps
          (user_set_groups-GroupsDenied fuel pid)
          (search (quiet_rules, gid_step-Quiet, uid_step-Quiet)))
        (Makes-second _ (user_set_groups fuel pid) maps (
          Makes-both (GidMapSet conf pid) (UidMapSet conf pid) maps
            (Makes-early (GidMapSet conf pid) (MapSet-IsLasting _ _ _ _) gid_step uid_step
              gid_step-GidMapSet (uid_step-Quiet fuel conf pid))
            (Makes-second (UidMapSet conf pid) gid_step uid_step uid_step-UidMapSet)))

  -- If `userInitNsFromParent` returns true, the maps of the child's user namespace are set and
  -- its groups cannot be dropped.
  pub user_init_ns_from_parent-MappedIf :
      Makes (MappedIf conf.clone_newuser conf pid) (user_init_ns_from_parent fuel conf pid)
  unfolding user_init_ns_from_parent
  user_init_ns_from_parent-MappedIf = mapped conf.clone_newuser
