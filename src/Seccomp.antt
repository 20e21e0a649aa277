-- ===== src/Seccomp.antt =====
-- The seccomp-bpf policy: seccomp/bpf-helper.h and .c, sandbox.c.
pub mod Insn
pub mod Print
pub mod Wide
pub mod Machine
pub mod Label
pub mod Resolve
