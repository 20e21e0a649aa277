-- ===== src/Seccomp/Wide.antt =====
-- seccomp/bpf-helper.h: the comparisons of a 64-bit argument, which ARG_64 has left as low word in
-- M[0] and high word in M[1] and in the accumulator. `JEQ(x, jt)` is `jeq x jt`, by JEQ64.
pub mod Compare
use nsjail.Common.{ℕ, List, [], ◌∷◌}
use nsjail.Seccomp.Insn.{
  SockFilter, bpf_stmt, bpf_jump, bpf_ld_mem, bpf_jeq, bpf_jgt, bpf_jge, bpf_jset, lo32, hi32,
}

pub jeq64 : ℕ → ℕ → SockFilter → List SockFilter
jeq64 lo hi jt =
    bpf_jump bpf_jeq hi 0 5
    ∷ bpf_stmt bpf_ld_mem 0
    ∷ bpf_jump bpf_jeq lo 0 2
    ∷ bpf_stmt bpf_ld_mem 1
    ∷ jt
    ∷ bpf_stmt bpf_ld_mem 1
    ∷ []

pub jne64 : ℕ → ℕ → SockFilter → List SockFilter
jne64 lo hi jt =
    bpf_jump bpf_jeq hi 5 0
    ∷ bpf_stmt bpf_ld_mem 0
    ∷ bpf_jump bpf_jeq lo 2 0
    ∷ bpf_stmt bpf_ld_mem 1
    ∷ jt
    ∷ bpf_stmt bpf_ld_mem 1
    ∷ []

pub ja64 : ℕ → ℕ → SockFilter → List SockFilter
ja64 lo hi jt =
    bpf_jump bpf_jset hi 3 0
    ∷ bpf_stmt bpf_ld_mem 0
    ∷ bpf_jump bpf_jset lo 0 2
    ∷ bpf_stmt bpf_ld_mem 1
    ∷ jt
    ∷ bpf_stmt bpf_ld_mem 1
    ∷ []

pub jge64 : ℕ → ℕ → SockFilter → List SockFilter
jge64 lo hi jt =
    bpf_jump bpf_jgt hi 4 0
    ∷ bpf_jump bpf_jeq hi 0 5
    ∷ bpf_stmt bpf_ld_mem 0
    ∷ bpf_jump bpf_jge lo 0 2
    ∷ bpf_stmt bpf_ld_mem 1
    ∷ jt
    ∷ bpf_stmt bpf_ld_mem 1
    ∷ []

pub jlt64 : ℕ → ℕ → SockFilter → List SockFilter
jlt64 lo hi jt =
    bpf_jump bpf_jge hi 0 4
    ∷ bpf_jump bpf_jeq hi 0 5
    ∷ bpf_stmt bpf_ld_mem 0
    ∷ bpf_jump bpf_jgt lo 2 0
    ∷ bpf_stmt bpf_ld_mem 1
    ∷ jt
    ∷ bpf_stmt bpf_ld_mem 1
    ∷ []

pub jgt64 : ℕ → ℕ → SockFilter → List SockFilter
jgt64 lo hi jt =
    bpf_jump bpf_jgt hi 4 0
    ∷ bpf_jump bpf_jeq hi 0 5
    ∷ bpf_stmt bpf_ld_mem 0
    ∷ bpf_jump bpf_jgt lo 0 2
    ∷ bpf_stmt bpf_ld_mem 1
    ∷ jt
    ∷ bpf_stmt bpf_ld_mem 1
    ∷ []

pub jle64 : ℕ → ℕ → SockFilter → List SockFilter
jle64 lo hi jt =
    bpf_jump bpf_jgt hi 6 0
    ∷ bpf_jump bpf_jeq hi 0 3
    ∷ bpf_stmt bpf_ld_mem 0
    ∷ bpf_jump bpf_jgt lo 2 0
    ∷ bpf_stmt bpf_ld_mem 1
    ∷ jt
    ∷ bpf_stmt bpf_ld_mem 1
    ∷ []

pub jeq : ℕ → SockFilter → List SockFilter
unfolding jeq64
jeq x jt = jeq64 (lo32 x) (hi32 x) jt

pub jne : ℕ → SockFilter → List SockFilter
unfolding jne64
jne x jt = jne64 (lo32 x) (hi32 x) jt

pub ja : ℕ → SockFilter → List SockFilter
unfolding ja64
ja x jt = ja64 (lo32 x) (hi32 x) jt

pub jge : ℕ → SockFilter → List SockFilter
unfolding jge64
jge x jt = jge64 (lo32 x) (hi32 x) jt

pub jlt : ℕ → SockFilter → List SockFilter
unfolding jlt64
jlt x jt = jlt64 (lo32 x) (hi32 x) jt

pub jgt : ℕ → SockFilter → List SockFilter
unfolding jgt64
jgt x jt = jgt64 (lo32 x) (hi32 x) jt

pub jle : ℕ → SockFilter → List SockFilter
unfolding jle64
jle x jt = jle64 (lo32 x) (hi32 x) jt
