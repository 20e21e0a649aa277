-- ===== src/Sandbox.antt =====
-- sandbox.c: the seccomp-bpf policy, on x86-64 or i386.
mod Tests
pub mod Policy
pub mod Kept
use nsjail.Common.{
  ℕ, Bool, true, false, not, ◌&&◌, Option, none, some, List, [], ◌∷◌, ◌++◌, ◌==◌, if◌then◌else◌,
}
use nsjail.Common.Int.{ℤ, pos, negsuc}
use nsjail.Common.Maybe
use nsjail.Seccomp.Insn.{
  SockFilter, load_arch, load_syscall_nr, jeq32, jump, label, errno, kill, allow,
}
use nsjail.Seccomp.Label.{BpfLabels, seccomp_bpf_label}
use nsjail.Seccomp.Resolve.{bpf_resolve_jumps}
use nsjail.Os.{
  Syscall, prctl, set_seccomp, Action, pure, exit, sys, failed, result_of, ◌>>=◌, ◌and_then◌,
}
use nsjail.Conf.{NsjConf}

abbrev pub audit_arch_i386 : ℕ
audit_arch_i386 = 0x4000_0003

abbrev pub audit_arch_x86_64 : ℕ
audit_arch_x86_64 = 0xc000_003e

abbrev pub enoent : ℕ
enoent = 2

abbrev pub nr_syslog_32 : ℕ
nr_syslog_32 = 103

abbrev pub nr_uselib_32 : ℕ
nr_uselib_32 = 86

abbrev pub nr_syslog_64 : ℕ
nr_syslog_64 = 103

abbrev pub nr_uselib_64 : ℕ
nr_uselib_64 = 134

-- The array, with the four labels numbered in the order in which they stand.
abbrev pub filter_at : ℕ → ℕ → ℕ → ℕ → List SockFilter
filter_at jump_i386 jump_x86_64 label_i386 label_x86_64 =
    load_arch
    ∷ (jeq32 audit_arch_i386 (jump jump_i386)
        ++ (jeq32 audit_arch_x86_64 (jump jump_x86_64)
            ++ (label label_i386
                ∷ load_syscall_nr
                ∷ (jeq32 nr_syslog_32 (errno enoent)
                    ++ (jeq32 nr_uselib_32 kill
                        ++ (allow
                            ∷ label label_x86_64
                            ∷ load_syscall_nr
                            ∷ (jeq32 nr_syslog_64 (errno enoent)
                                ++ (jeq32 nr_uselib_64 kill ++ allow ∷ []))))))))

abbrev labels_at :
    Option (ℕ × BpfLabels)
    → (ℕ → BpfLabels → Option (List SockFilter × BpfLabels))
    → Option (List SockFilter × BpfLabels)
labels_at r k = Maybe.◌>>=◌ r (λ s. k s.0 s.1)

-- The initialiser of `filter`, which numbers its labels as it goes.
pub sandbox_filter : Option (List SockFilter × BpfLabels)
sandbox_filter = labels_at (seccomp_bpf_label [] "label_i386") λ a l1.
    labels_at (seccomp_bpf_label l1 "label_x86_64") λ b l2.
      labels_at (seccomp_bpf_label l2 "label_i386")
        λ c l3. labels_at (seccomp_bpf_label l3 "label_x86_64") λ e l4. some (filter_at a b c e, l4)

-- `if (prctl(...)) return false;`
zero_result : Syscall → Action Bool
zero_result c = do r ← sys c; pure (not (failed r) && result_of r == 0)

-- PR_SET_NO_NEW_PRIVS is 38.
sandbox_prctls : List SockFilter → Action Bool
unfolding zero_result
sandbox_prctls prog = zero_result (prctl 38 1) and_then zero_result (set_seccomp prog)

commit_resolved : ℤ → List SockFilter → Action Bool
unfolding sandbox_prctls
commit_resolved (pos n) prog = if n == 0 then sandbox_prctls prog else pure false
commit_resolved (negsuc n) prog = pure false

commit : Option (List SockFilter × BpfLabels) → Action Bool
unfolding commit_resolved
commit none = exit 1
commit (some (filter, labels)) =
    let r = bpf_resolve_jumps labels filter in commit_resolved r.code r.filter

unfoldable pub sandbox_prepare_and_commit : Action Bool
unfolding sandbox_filter commit
sandbox_prepare_and_commit = commit sandbox_filter

unfoldable pub sandbox_apply : NsjConf → Action Bool
sandbox_apply conf = if conf.apply_sandbox then sandbox_prepare_and_commit else pure true
