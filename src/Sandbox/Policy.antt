-- ===== src/Sandbox/Policy.antt =====
-- What the policy of sandbox.c decides for a system call, on every BPF machine.
use nsjail.Common.{
  ℕ, ◌+◌, ◌≡◌, refl, inl, inr, some, List, [], ◌∷◌, drop, ◌==◌, true, false, arith, if◌then◌else◌,
  Bool-cases,
}
use nsjail.Seccomp.Insn.{
  SockFilter, bpf_jump, bpf_ja, bpf_jeq, seccomp_ret_allow, seccomp_ret_kill, seccomp_ret_errno,
  load_arch, load_syscall_nr, errno, kill, allow,
}
use nsjail.Seccomp.Label.{BpfLabels, seccomp_bpf_label, unplaced}
use nsjail.Seccomp.Resolve.{bpf_resolve_jumps}
use nsjail.Seccomp.Machine.{Machine}
use nsjail.Os.{prctl, set_seccomp, done, World, value, out_of}
use nsjail.Conf.{NsjConf}
use nsjail.Sandbox.{
  sandbox_prctls, sandbox_prepare_and_commit, sandbox_apply, audit_arch_i386, audit_arch_x86_64,
  enoent, nr_syslog_32, nr_uselib_32, nr_syslog_64, nr_uselib_64, filter_at, sandbox_filter,
}

-- The program that is committed, with distances in place of labels.
abbrev sandbox_program : List SockFilter
sandbox_program =
    load_arch
    ∷ bpf_jump bpf_jeq audit_arch_i386 0 1
    ∷ bpf_jump bpf_ja 2 0 0
    ∷ bpf_jump bpf_jeq audit_arch_x86_64 0 1
    ∷ bpf_jump bpf_ja 7 0 0
    ∷ bpf_jump bpf_ja 0 0 0
    ∷ load_syscall_nr
    ∷ bpf_jump bpf_jeq nr_syslog_32 0 1
    ∷ errno enoent
    ∷ bpf_jump bpf_jeq nr_uselib_32 0 1
    ∷ kill
    ∷ allow
    ∷ bpf_jump bpf_ja 0 0 0
    ∷ load_syscall_nr
    ∷ bpf_jump bpf_jeq nr_syslog_64 0 1
    ∷ errno enoent
    ∷ bpf_jump bpf_jeq nr_uselib_64 0 1
    ∷ kill
    ∷ allow
    ∷ []

abbrev numbered : BpfLabels
numbered =
    record { label = "label_i386"; location = unplaced }
    ∷ record { label = "label_x86_64"; location = unplaced }
    ∷ []

sandbox_filter_lem : sandbox_filter ≡ some (filter_at 0 1 0 1, numbered)
unfolding sandbox_filter seccomp_bpf_label
sandbox_filter_lem = refl

bpf_resolve_jumps-filter_at :
    (bpf_resolve_jumps numbered (filter_at 0 1 0 1)).filter ≡ sandbox_program
unfolding bpf_resolve_jumps
bpf_resolve_jumps-filter_at = refl

-- The return value for a call `nr` under the calling convention `arch`. Every convention but
-- x86-64 is treated as i386.
abbrev pub verdict_32 : ℕ → ℕ
verdict_32 nr =
    if nr == nr_syslog_32
    then seccomp_ret_errno + enoent
    else if nr == nr_uselib_32
    then seccomp_ret_kill
    else seccomp_ret_allow

abbrev pub verdict_64 : ℕ → ℕ
verdict_64 nr =
    if nr == nr_syslog_64
    then seccomp_ret_errno + enoent
    else if nr == nr_uselib_64
    then seccomp_ret_kill
    else seccomp_ret_allow

abbrev pub verdict : ℕ → ℕ → ℕ
verdict arch nr = if arch == audit_arch_x86_64 then verdict_64 nr else verdict_32 nr

module _ (bpf : Machine) (d : ℕ → ℕ) (a : ℕ) (m : ℕ → ℕ) where
  open bpf use {run, run-ld_abs, run-ret, run-ja, run-jeq}

  run-part_32 : run d (drop 5 sandbox_program) a m ≡ some (verdict_32 (d 0))
  run-part_32 = elim (Bool-cases (d 0 == nr_syslog_32)) [
    | inl s ↦ simp (run-ja, run-ld_abs, run-jeq, run-ret, s)
    | inr s ↦ elim (Bool-cases (d 0 == nr_uselib_32)) [
      | inl u ↦ simp (run-ja, run-ld_abs, run-jeq, run-ret, s, u)
      | inr u ↦ simp (run-ja, run-ld_abs, run-jeq, run-ret, s, u)
    ]
  ]

  run-part_64 : run d (drop 12 sandbox_program) a m ≡ some (verdict_64 (d 0))
  run-part_64 = elim (Bool-cases (d 0 == nr_syslog_64)) [
    | inl s ↦ simp (run-ja, run-ld_abs, run-jeq, run-ret, s)
    | inr s ↦ elim (Bool-cases (d 0 == nr_uselib_64)) [
      | inl u ↦ simp (run-ja, run-ld_abs, run-jeq, run-ret, s, u)
      | inr u ↦ simp (run-ja, run-ld_abs, run-jeq, run-ret, s, u)
    ]
  ]

run-sandbox_program :
    (bpf : Machine) (d : ℕ → ℕ) (a : ℕ) (m : ℕ → ℕ)
    → bpf.run d sandbox_program a m ≡ some (verdict (d 4) (d 0))
run-sandbox_program bpf d a m = elim (Bool-cases (d 4 == audit_arch_i386)) [
  | inl i ↦
      let other : (d 4 == audit_arch_x86_64) ≡ false = ground arith in
      rw (bpf.run-ld_abs, bpf.run-jeq, i, bpf.run-ja, other) (run-part_32 bpf d (d 4) m)
  | inr i ↦ elim (Bool-cases (d 4 == audit_arch_x86_64)) [
    | inl x ↦ simp (bpf.run-ld_abs, bpf.run-jeq, i, x) (rw bpf.run-ja (run-part_64 bpf d (d 4) m))
    | inr x ↦ simp (bpf.run-ld_abs, bpf.run-jeq, i, x) (run-part_32 bpf d (d 4) m)
  ]
]

-- The log ends with the two calls that put the program `prog` in force, both successful.
pub record IsCommitted (prog : List SockFilter) (before after : World) : Type 0 where
  pub out : List ℕ
  pub out' : List ℕ
  pub calls : after.log ≡ (set_seccomp prog, done 0 out) ∷ (prctl 38 1, done 0 out') ∷ before.log

-- What a committed program decides, on every machine and every system call.
abbrev pub IsPolicy : List SockFilter → Type 0
IsPolicy prog =
    (bpf : Machine) (d : ℕ → ℕ) (a : ℕ) (m : ℕ → ℕ)
    → bpf.run d prog a m ≡ some (verdict (d 4) (d 0))

sandbox_prctls-IsCommitted :
    (prog : List SockFilter) (w : World)
    → (sandbox_prctls prog w).0 ≡ value true
    → IsCommitted prog w (sandbox_prctls prog w).1
unfolding sandbox_prctls
sandbox_prctls-IsCommitted prog w h = record {
  out = out_of (w.kernel ((prctl 38 1, w.kernel w.log (prctl 38 1)) ∷ w.log) (set_seccomp prog));
  out' = out_of (w.kernel w.log (prctl 38 1));
  calls = ground arith;
}

sandbox_prepare_and_commit_lem : sandbox_prepare_and_commit ≡ sandbox_prctls sandbox_program
unfolding sandbox_prepare_and_commit bpf_resolve_jumps seccomp_bpf_label
sandbox_prepare_and_commit_lem = refl

pub sandbox_apply_off :
    (conf : NsjConf) (w : World)
    → conf.apply_sandbox ≡ false
    → sandbox_apply conf w ≡ (value true, w)
unfolding sandbox_apply
sandbox_apply_off conf w off = rw off refl

-- With `apply_sandbox` set, `sandboxApply` returns true only after NO_NEW_PRIVS and a seccomp
-- program have been put in force, and the program decides as `verdict` does.
pub sandbox_apply-enforces :
    (conf : NsjConf) (w : World)
    → conf.apply_sandbox ≡ true
    → (sandbox_apply conf w).0 ≡ value true
    → (prog : List SockFilter) × IsPolicy prog × IsCommitted prog w (sandbox_apply conf w).1
unfolding sandbox_apply
sandbox_apply-enforces conf w on h = rw same (
  sandbox_program,
  run-sandbox_program,
  sandbox_prctls-IsCommitted sandbox_program w (rw same at h),
)
  where
    same : sandbox_apply conf ≡ sandbox_prctls sandbox_program
    same = rw on sandbox_prepare_and_commit_lem
