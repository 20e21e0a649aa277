-- ===== src/Cgroup/Kept.antt =====
-- cgroup.c: making and removing a memory cgroup executes no program.
use nsjail.Common.{ℕ}
use nsjail.Common.Int.{ℤ}
use nsjail.Os.Quiet.{Quiet, quiet_rules}
use nsjail.Conf.{NsjConf}
use nsjail.Util.Kept.{util_write_buf_to_file-Quiet}
use nsjail.Cgroup.{make_cgroup, cgroup_init_ns_from_parent, cgroup_finish_from_parent}

pub cgroup_init_ns_from_parent-Quiet :
    (fuel : ℕ) (conf : NsjConf) (pid : ℤ) → Quiet (cgroup_init_ns_from_parent fuel conf pid)
unfolding cgroup_init_ns_from_parent make_cgroup
cgroup_init_ns_from_parent-Quiet fuel conf pid =
    search (quiet_rules, util_write_buf_to_file-Quiet) depth 12

pub cgroup_finish_from_parent-Quiet :
    (conf : NsjConf) (pid : ℤ) → Quiet (cgroup_finish_from_parent conf pid)
unfolding cgroup_finish_from_parent
cgroup_finish_from_parent-Quiet conf pid = search quiet_rules
