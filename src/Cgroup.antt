-- ===== src/Cgroup.antt =====
-- cgroup.c: the memory cgroup of a child, which the parent makes and removes. `fuel` bounds the
-- rounds of each write.
pub mod Kept
pub mod Limited
use nsjail.Common.{ℕ, Bool, true, not, ◌∷◌, ◌++◌, ◌==◌, if◌then◌else◌}
use nsjail.Common.Int.{ℤ}
use nsjail.Common.Text.{bytes, print_ℕ, print_ℤ, snprintf, path_max}
use nsjail.Os.{made, CString, mkdir, rmdir, Action, pure, sys, ◌>>=◌, ◌>>◌, ◌and_then◌}
use nsjail.Conf.{NsjConf}
use nsjail.Util.{util_write_buf_to_file}

-- O_WRONLY
abbrev pub o_wronly : ℕ
o_wronly = 1

unfoldable pub mem_cgroup_path : NsjConf → ℤ → CString
unfolding print_ℤ
mem_cgroup_path conf pid = snprintf path_max (
    conf.cgroup_mem_mount
    ++ (bytes "/" ++ (conf.cgroup_mem_parent ++ (bytes "/NSJAIL." ++ print_ℤ pid))))

abbrev pub file_in : CString → CString → CString
file_in dir name = snprintf path_max (dir ++ (b'/' ∷ name))

make_cgroup : CString → Action Bool
make_cgroup path = do r ← sys (mkdir path 0o700); pure (made r)

unfoldable pub cgroup_init_ns_from_parent : ℕ → NsjConf → ℤ → Action Bool
unfolding make_cgroup mem_cgroup_path
cgroup_init_ns_from_parent fuel conf pid =
    let path = mem_cgroup_path conf pid in
    if conf.cgroup_mem_max == 0
    then pure true
    else make_cgroup path
      and_then (if not (conf.cgroup_mem_max == 0)
          then util_write_buf_to_file fuel (file_in path (bytes "memory.limit_in_bytes"))
              (snprintf 512 (print_ℕ conf.cgroup_mem_max)) o_wronly
          else pure true)
      and_then util_write_buf_to_file fuel (file_in path (bytes "memory.oom_control")) (bytes "0")
          o_wronly
      and_then util_write_buf_to_file fuel (file_in path (bytes "tasks"))
          (snprintf 512 (print_ℤ pid)) o_wronly

unfoldable pub cgroup_finish_from_parent : NsjConf → ℤ → Action (Unit {0})
unfolding mem_cgroup_path
cgroup_finish_from_parent conf pid =
    if conf.cgroup_mem_max == 0 then pure tt else sys (rmdir (mem_cgroup_path conf pid)) >> pure tt
