-- ===== src/Cgroup/Limited.antt =====
-- cgroup.c: what the parent leaves in the files of the child's memory cgroup.
use nsjail.Common.{ℕ, Bool, true, false, not, List, ◌==◌, if◌then◌else◌}
use nsjail.Common.Int.{ℤ}
use nsjail.Common.Text.{bytes, print_ℕ, print_ℤ, snprintf}
use nsjail.Os.{Event, Action, pure, ◌and_then◌}
use nsjail.Os.Done.{Makes, Makes-second, IsLasting, Makes-early}
use nsjail.Os.Quiet.{Quiet-and_then}
use nsjail.Conf.{NsjConf}
use nsjail.Util.{util_write_buf_to_file}
use nsjail.Util.Kept.{util_write_buf_to_file-Quiet}
use nsjail.Util.Put.{IsPut, IsPut-IsLasting, util_write_buf_to_file-IsPut}
use nsjail.Cgroup.{o_wronly, mem_cgroup_path, file_in, make_cgroup, cgroup_init_ns_from_parent}

-- The limit, the choice of the OOM killer and the child's membership have been written.
pub record IsGrouped (conf : NsjConf) (pid : ℤ) (log : List Event) : Type 0 where
  pub limit :
      IsPut
        (file_in (mem_cgroup_path conf pid) (bytes "memory.limit_in_bytes"))
        o_wronly
        (snprintf 512 (print_ℕ conf.cgroup_mem_max))
        log
  pub oom_control :
      IsPut
        (file_in (mem_cgroup_path conf pid) (bytes "memory.oom_control"))
        o_wronly
        (bytes "0")
        log
  pub tasks :
      IsPut
        (file_in (mem_cgroup_path conf pid) (bytes "tasks"))
        o_wronly
        (snprintf 512 (print_ℤ pid))
        log

-- That, if there is a limit.
abbrev pub GroupedUnless : Bool → NsjConf → ℤ → List Event → Type 0
GroupedUnless true conf pid log = Unit {0}
GroupedUnless false conf pid log = IsGrouped conf pid log

pub GroupedUnless-IsLasting :
    (b : Bool) (conf : NsjConf) (pid : ℤ) → IsLasting (GroupedUnless b conf pid)
GroupedUnless-IsLasting true conf pid new log p = tt
GroupedUnless-IsLasting false conf pid new log p = record {
  limit = IsPut-IsLasting _ _ _ new log p.limit;
  oom_control = IsPut-IsLasting _ _ _ new log p.oom_control;
  tasks = IsPut-IsLasting _ _ _ new log p.tasks;
}

module _ (fuel : ℕ) (conf : NsjConf) (pid : ℤ) where
  abbrev put_limit : Action Bool
  put_limit =
      util_write_buf_to_file fuel
        (file_in (mem_cgroup_path conf pid) (bytes "memory.limit_in_bytes"))
        (snprintf 512 (print_ℕ conf.cgroup_mem_max)) o_wronly

  abbrev put_oom_control : Action Bool
  put_oom_control =
      util_write_buf_to_file fuel (file_in (mem_cgroup_path conf pid) (bytes "memory.oom_control"))
        (bytes "0") o_wronly

  abbrev put_tasks : Action Bool
  put_tasks =
      util_write_buf_to_file fuel (file_in (mem_cgroup_path conf pid) (bytes "tasks"))
        (snprintf 512 (print_ℤ pid)) o_wronly

  files_put : Makes (IsGrouped conf pid) (put_limit and_then put_oom_control and_then put_tasks)
  files_put = record {
    at = λ w h. record {
      limit =
          (Makes-early _ (IsPut-IsLasting _ _ _) put_limit (put_oom_control and_then put_tasks)
              (util_write_buf_to_file-IsPut fuel _ _ o_wronly)
              (Quiet-and_then put_oom_control put_tasks
                (util_write_buf_to_file-Quiet fuel _ _ o_wronly)
                (util_write_buf_to_file-Quiet fuel _ _ o_wronly))).at
            w h;
      oom_control =
          (Makes-second _ put_limit (put_oom_control and_then put_tasks) (
              Makes-early _ (IsPut-IsLasting _ _ _) put_oom_control put_tasks
                (util_write_buf_to_file-IsPut fuel _ _ o_wronly)
                (util_write_buf_to_file-Quiet fuel _ _ o_wronly))).at
            w h;
      tasks =
          (Makes-second _ put_limit (put_oom_control and_then put_tasks) (
              Makes-second _ put_oom_control put_tasks
                (util_write_buf_to_file-IsPut fuel _ _ o_wronly))).at
            w h;
    };
  }

  grouped :
      (b : Bool)
      → Makes (GroupedUnless b conf pid) (
          if b
          then pure true
          else make_cgroup (mem_cgroup_path conf pid)
            and_then (if not b then put_limit else pure true)
            and_then put_oom_control
            and_then put_tasks)
  grouped true = record { at = λ w h. tt }
  grouped false =
      Makes-second (IsGrouped conf pid) (make_cgroup (mem_cgroup_path conf pid))
        (put_limit and_then put_oom_control and_then put_tasks) files_put

  -- If `cgroupInitNsFromParent` returns true, the child's limit, if it has one, is in force.
  pub cgroup_init_ns_from_parent-GroupedUnless :
      Makes
        (GroupedUnless (conf.cgroup_mem_max == 0) conf pid)
        (cgroup_init_ns_from_parent fuel conf pid)
  unfolding cgroup_init_ns_from_parent
  cgroup_init_ns_from_parent-GroupedUnless = grouped (conf.cgroup_mem_max == 0)
