-- ===== src/Nsjail/Whole/Tests.antt =====
-- A run of the whole program, up to the program that it executes.
use nsjail.Common.{◌≡◌, refl, List, [], ◌∷◌}
use nsjail.Common.Text.{bytes}
use nsjail.Os.{CString, Kernel, World, replaced, read, done}
use nsjail.Os.Quiet.{calls_execv}
use nsjail.Os.Guarded.{Guarded}
use nsjail.Util.{util_read_from_fd}
use nsjail.Util.Dirs.{util_create_dir_recursively, component, skip_slashes}
use nsjail.Seccomp.Label.{seccomp_bpf_label}
use nsjail.Seccomp.Resolve.{bpf_resolve_jumps}
use nsjail.Sandbox.{sandbox_apply, sandbox_prepare_and_commit}
use nsjail.Mount.{
  mount_init_ns, mount_init_ns_internal, mount_all, mount_mount, mount_is_dir, mount_not_is_dir,
  remount_all, mount_remount_ro,
}
use nsjail.Net.{net_limit_conns}
use nsjail.Net.Iface.{net_init_ns_from_child, net_iface_up}
use nsjail.Contain.{
  contain_setup_fd, contain_contain, pid_init_ns, uts_init_ns, cgroup_init_ns, contain_drop_privs,
  drop_bounding, contain_set_limits, contain_prepare_env, contain_make_fds_coe,
  contain_make_fds_coe_proc, proc_loop,
}
use nsjail.Subproc.Child.{
  prepare_proc, init_namespaces, set_env, put_envs, subproc_new_proc, subproc_run_child,
}
use nsjail.Log.{log_init_log_file}
use nsjail.Cmdline.{cmdline_parse, init_conf, finish_parse, add_mounts}
use nsjail.Cmdline.Values.{cmdline_parse_r_limit, cmdline_parse_uid, cmdline_parse_gid}
use nsjail.Cmdline.Switch.{flag_option, text_option, persona_option, local_option, list_option}
use nsjail.Cmdline.Loop.{Opt, apply_options, apply_option, limit_option, quiet_option}
use nsjail.Nsjail.{
  main, run_mode, nsjail_set_sig_handlers, nsjail_set_sig_handler, nsjail_set_timer,
  nsjail_standalone_mode,
}
use nsjail.Nsjail.Whole.{IsExecuted, main-Guarded}

-- The parent has said that it is done; every other call succeeds and returns 0, `clone` in the
-- child.
abbrev told : Kernel
told log (read fd n) = done 1 (68 ∷ [])
told log c = done 0 []

abbrev world : World
world = record { kernel = told; log = [] }

-- --keep_caps -e
abbrev opts : List Opt
opts = record { c = 0x501; optarg = [] } ∷ record { c = b'e'; optarg = [] } ∷ []

abbrev argv : List CString
argv = bytes "/bin/sh" ∷ []

main_executes : (main 1 2 opts argv world).0 ≡ replaced
unfolding main run_mode nsjail_standalone_mode nsjail_set_sig_handlers nsjail_set_sig_handler
    nsjail_set_timer cmdline_parse init_conf finish_parse add_mounts cmdline_parse_r_limit
    cmdline_parse_uid cmdline_parse_gid flag_option text_option persona_option local_option
    list_option apply_options apply_option limit_option quiet_option log_init_log_file
    subproc_run_child subproc_new_proc net_limit_conns prepare_proc contain_setup_fd init_namespaces
    util_read_from_fd contain_contain pid_init_ns uts_init_ns cgroup_init_ns contain_drop_privs
    drop_bounding contain_set_limits contain_prepare_env contain_make_fds_coe
    contain_make_fds_coe_proc proc_loop set_env put_envs sandbox_apply sandbox_prepare_and_commit
    seccomp_bpf_label bpf_resolve_jumps mount_init_ns mount_init_ns_internal mount_all mount_mount
    mount_is_dir mount_not_is_dir util_create_dir_recursively component skip_slashes remount_all
    mount_remount_ro net_init_ns_from_child net_iface_up
main_executes = refl

main-Guarded_example : Guarded (IsExecuted opts argv world) (main 1 2 opts argv world).1.log
unfolding calls_execv
main-Guarded_example = main-Guarded 1 2 opts argv world refl
