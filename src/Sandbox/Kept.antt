-- ===== src/Sandbox/Kept.antt =====
-- sandbox.c: applying the policy undoes no call that was made before.
use nsjail.Common.{false, Option, none, some, List}
use nsjail.Common.Int.{ℤ, pos, negsuc}
use nsjail.Seccomp.Insn.{SockFilter}
use nsjail.Seccomp.Label.{BpfLabels}
use nsjail.Seccomp.Resolve.{bpf_resolve_jumps}
use nsjail.Os.Quiet.{Quiet, Quiet-pure, Quiet-exit, quiet_rules}
use nsjail.Conf.{NsjConf}
use nsjail.Sandbox.{
  zero_result, sandbox_prctls, commit_resolved, commit, sandbox_prepare_and_commit, sandbox_apply,
}

sandbox_prctls-Quiet : (prog : List SockFilter) → Quiet (sandbox_prctls prog)
unfolding sandbox_prctls zero_result
sandbox_prctls-Quiet prog = search quiet_rules

commit_resolved-Quiet : (code : ℤ) (prog : List SockFilter) → Quiet (commit_resolved code prog)
unfolding commit_resolved
commit_resolved-Quiet (pos n) prog = search (quiet_rules, sandbox_prctls-Quiet)
commit_resolved-Quiet (negsuc n) prog = Quiet-pure false

commit-Quiet : (filter : Option (List SockFilter × BpfLabels)) → Quiet (commit filter)
unfolding commit
commit-Quiet none = Quiet-exit 1
commit-Quiet (some (filter, labels)) =
    let r = bpf_resolve_jumps labels filter in commit_resolved-Quiet r.code r.filter

pub sandbox_apply-Quiet : (conf : NsjConf) → Quiet (sandbox_apply conf)
unfolding sandbox_apply sandbox_prepare_and_commit
sandbox_apply-Quiet conf = search (quiet_rules, commit-Quiet)
