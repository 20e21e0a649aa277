-- ===== src/Sandbox/Tests.antt =====
-- The policy is put in force where every call succeeds.
use nsjail.Common.{◌≡◌, refl, List, true}
use nsjail.Seccomp.Insn.{SockFilter}
use nsjail.Os.{value}
use nsjail.Tests.Worlds.{conf, start}
use nsjail.Seccomp.Label.{seccomp_bpf_label}
use nsjail.Seccomp.Resolve.{bpf_resolve_jumps}
use nsjail.Sandbox.{sandbox_prepare_and_commit, sandbox_apply}
use nsjail.Sandbox.Policy.{IsPolicy, IsCommitted, sandbox_apply-enforces}

sandbox_apply-true : (sandbox_apply conf start).0 ≡ value true
unfolding sandbox_apply sandbox_prepare_and_commit seccomp_bpf_label bpf_resolve_jumps
sandbox_apply-true = refl

sandbox_apply-enforces_example :
    (prog : List SockFilter) × IsPolicy prog × IsCommitted prog start (sandbox_apply conf start).1
sandbox_apply-enforces_example = sandbox_apply-enforces conf start refl sandbox_apply-true
