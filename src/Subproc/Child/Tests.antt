-- ===== src/Subproc/Child/Tests.antt =====
-- A child that its parent lets go on, where every call succeeds.
use nsjail.Common.{◌≡◌, refl, true, length, [], ◌∷◌}
use nsjail.Common.Int.{pos}
use nsjail.Os.{World, value, Kernel, read, write, done}
use nsjail.Tests.Worlds.{conf}
use nsjail.Util.{util_read_from_fd, util_write_to_fd, util_write_buf_to_file}
use nsjail.Seccomp.Label.{seccomp_bpf_label}
use nsjail.Seccomp.Resolve.{bpf_resolve_jumps}
use nsjail.Sandbox.{sandbox_apply, sandbox_prepare_and_commit}
use nsjail.Mount.{mount_init_ns, mount_init_ns_internal, mount_all, remount_all}
use nsjail.Net.Iface.{net_init_ns_from_child, net_iface_up}
use nsjail.Contain.{
  contain_setup_fd, contain_contain, pid_init_ns, uts_init_ns, cgroup_init_ns, contain_drop_privs,
  drop_bounding, contain_set_limits, contain_prepare_env, contain_make_fds_coe,
  contain_make_fds_coe_proc, proc_loop,
}
use nsjail.Contain.State.{state}
use nsjail.Subproc.Child.{subproc_init_parent, prepare_proc, init_namespaces, set_env, put_envs}
use nsjail.Mount.Readonly.{Sealed}
use nsjail.Subproc.Child.Sealed.{prepare_proc-Sealed}
use nsjail.Conf.{NsjConf}
use nsjail.Cgroup.{mem_cgroup_path, cgroup_init_ns_from_parent}
use nsjail.User.{
  user_init_ns_from_parent, user_set_groups, user_uid_gid_map, user_uid_map_self, user_gid_map_self,
}
use nsjail.Net.Parent.{net_init_ns_from_parent}
use nsjail.Subproc.Child.Told.{IsTold, subproc_init_parent-IsTold}
use nsjail.Subproc.Child.Exec.{IsReady, prepare_proc-IsReady}

-- The parent has said that it is done; every other call succeeds and returns 0.
abbrev told : Kernel
told log (read fd n) = done 1 (68 ∷ [])
told log c = done 0 []

abbrev world : World
world = record { kernel = told; log = [] }

prepared : (prepare_proc 2 conf (pos 0) (pos 1) (pos 2) (pos 5) world).0 ≡ value tt
unfolding prepare_proc contain_setup_fd init_namespaces util_read_from_fd contain_contain
    pid_init_ns uts_init_ns cgroup_init_ns contain_drop_privs drop_bounding contain_set_limits
    contain_prepare_env contain_make_fds_coe contain_make_fds_coe_proc proc_loop set_env put_envs
    sandbox_apply sandbox_prepare_and_commit seccomp_bpf_label bpf_resolve_jumps mount_init_ns
    mount_init_ns_internal mount_all remount_all net_init_ns_from_child net_iface_up
prepared = refl

prepare_proc-IsReady_example :
    IsReady conf (state (prepare_proc 2 conf (pos 0) (pos 1) (pos 2) (pos 5) world).1.log)
prepare_proc-IsReady_example =
    prepare_proc-IsReady 2 conf (pos 0) (pos 1) (pos 2) (pos 5) world prepared

prepare_proc-Sealed_example :
    Sealed conf (prepare_proc 2 conf (pos 0) (pos 1) (pos 2) (pos 5) world).1.log
prepare_proc-Sealed_example =
    prepare_proc-Sealed 2 conf (pos 0) (pos 1) (pos 2) (pos 5) world refl refl prepared

-- Every write takes all its bytes; every other call succeeds and returns 0.
abbrev taking : Kernel
taking log (write fd text) = done (length text) []
taking log c = done 0 []

abbrev parent_world : World
parent_world = record { kernel = taking; log = [] }

abbrev limited : NsjConf
limited = record conf { cgroup_mem_max = 4096 }

let_go : (subproc_init_parent 20 limited (pos 7) (pos 6) parent_world).0 ≡ value true
unfolding subproc_init_parent net_init_ns_from_parent cgroup_init_ns_from_parent
    user_init_ns_from_parent user_set_groups user_uid_gid_map user_uid_map_self user_gid_map_self
    util_write_buf_to_file util_write_to_fd mem_cgroup_path
let_go = refl

subproc_init_parent-IsTold_example :
    IsTold limited
      (pos 7)
      (pos 6)
      (subproc_init_parent 20 limited (pos 7) (pos 6) parent_world).1.log
subproc_init_parent-IsTold_example =
    subproc_init_parent-IsTold 20 limited (pos 7) (pos 6) parent_world let_go
