-- ===== src/Subproc/Child/Kept.antt =====
-- subproc.c: neither what a new process does before its `execv` nor what its parent does executes a
-- program.
use nsjail.Common.{ℕ, List, [], ◌∷◌}
use nsjail.Common.Int.{ℤ}
use nsjail.Os.{CString, putenv, sys}
use nsjail.Os.Quiet.{Quiet, Quiet-pure, Quiet-bind, quiet_rules}
use nsjail.Conf.{NsjConf}
use nsjail.Util.Kept.{util_read_from_fd-Quiet, util_write_to_fd-Quiet}
use nsjail.Net.Kept.{net_conn_to_text-Quiet, or_indeterminate-Quiet}
use nsjail.Net.Parent.Kept.{net_init_ns_from_parent-Quiet}
use nsjail.Cgroup.Kept.{cgroup_init_ns_from_parent-Quiet}
use nsjail.User.Kept.{user_init_ns_from_parent-Quiet}
use nsjail.Contain.Kept.{contain_setup_fd-Quiet, contain_contain-Quiet}
use nsjail.Sandbox.Kept.{sandbox_apply-Quiet}
use nsjail.Subproc.{subproc_add}
use nsjail.Subproc.Child.{
  await_parent, init_self, init_namespaces, put_envs, set_env, prepare_proc, subproc_init_parent,
}

put_envs-Quiet : (envs : List CString) → Quiet (put_envs envs)
unfolding put_envs
put_envs-Quiet [] = Quiet-pure tt
put_envs-Quiet (e ∷ envs) =
    Quiet-bind (sys (putenv e)) _ (search quiet_rules) (λ _. put_envs-Quiet envs)

pub set_env-Quiet : (conf : NsjConf) → Quiet (set_env conf)
unfolding set_env
set_env-Quiet conf = search (quiet_rules, put_envs-Quiet)

pub init_namespaces-Quiet :
    (fuel : ℕ) (conf : NsjConf) (pipefd : ℤ) → Quiet (init_namespaces fuel conf pipefd)
unfolding init_namespaces init_self await_parent
init_namespaces-Quiet fuel conf pipefd =
    search
      (
        quiet_rules, user_init_ns_from_parent-Quiet, cgroup_init_ns_from_parent-Quiet,
        util_read_from_fd-Quiet,
      )
      depth 12

pub prepare_proc-Quiet :
    (fuel : ℕ) (conf : NsjConf) (fd_in fd_out fd_err pipefd : ℤ)
    → Quiet (prepare_proc fuel conf fd_in fd_out fd_err pipefd)
unfolding prepare_proc
prepare_proc-Quiet fuel conf fd_in fd_out fd_err pipefd =
    search
      (
        quiet_rules, contain_setup_fd-Quiet, init_namespaces-Quiet, contain_contain-Quiet,
        set_env-Quiet, sandbox_apply-Quiet,
      )
      depth 12

pub subproc_add-Quiet : (conf : NsjConf) (pid sock : ℤ) → Quiet (subproc_add conf pid sock)
unfolding subproc_add
subproc_add-Quiet conf pid sock =
    search (quiet_rules, net_conn_to_text-Quiet, or_indeterminate-Quiet) depth 9

pub subproc_init_parent-Quiet :
    (fuel : ℕ) (conf : NsjConf) (pid pipefd : ℤ) → Quiet (subproc_init_parent fuel conf pid pipefd)
unfolding subproc_init_parent
subproc_init_parent-Quiet fuel conf pid pipefd =
    search
      (
        quiet_rules, net_init_ns_from_parent-Quiet, cgroup_init_ns_from_parent-Quiet,
        user_init_ns_from_parent-Quiet, util_write_to_fd-Quiet,
      )
      depth 9
