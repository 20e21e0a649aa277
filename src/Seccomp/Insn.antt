-- ===== src/Seccomp/Insn.antt =====
-- seccomp/bpf-helper.h: the instructions of a classic BPF program (`struct sock_filter`) and the
-- macros that write them, on a little-endian 64-bit machine. The numbers of the codes are those
-- of <linux/filter.h>, <linux/seccomp.h> and <linux/audit.h>.
use nsjail.Common.{ℕ, ◌+◌, ◌/◌, ◌%◌, ◌*◌, ◌^◌, List, [], ◌∷◌}
use Prim.Native.Nat.{bit_and, bit_or}

pub record SockFilter : Type 0 where
  pub code : ℕ
  pub jt : ℕ
  pub jf : ℕ
  pub k : ℕ

abbrev pub bpf_stmt : ℕ → ℕ → SockFilter
bpf_stmt code k = record { code = code; jt = 0; jf = 0; k = k }

abbrev pub bpf_jump : ℕ → ℕ → ℕ → ℕ → SockFilter
bpf_jump code k jt jf = record { code = code; jt = jt; jf = jf; k = k }

-- BPF_LD+BPF_W+BPF_ABS
abbrev pub bpf_ld_abs : ℕ
bpf_ld_abs = 0x20

-- BPF_LD+BPF_MEM
abbrev pub bpf_ld_mem : ℕ
bpf_ld_mem = 0x60

abbrev pub bpf_st : ℕ
bpf_st = 0x02

-- BPF_RET+BPF_K
abbrev pub bpf_ret : ℕ
bpf_ret = 0x06

-- BPF_JMP+BPF_JA
abbrev pub bpf_ja : ℕ
bpf_ja = 0x05

-- BPF_JMP+BPF_JEQ+BPF_K, and so for the other three
abbrev pub bpf_jeq : ℕ
bpf_jeq = 0x15

abbrev pub bpf_jgt : ℕ
bpf_jgt = 0x25

abbrev pub bpf_jge : ℕ
bpf_jge = 0x35

abbrev pub bpf_jset : ℕ
bpf_jset = 0x45

abbrev pub seccomp_ret_kill : ℕ
seccomp_ret_kill = 0

abbrev pub seccomp_ret_errno : ℕ
seccomp_ret_errno = 0x0005_0000

abbrev pub seccomp_ret_allow : ℕ
seccomp_ret_allow = 0x7fff_0000

abbrev pub seccomp_ret_data : ℕ
seccomp_ret_data = 0xffff

-- The marks by which `bpf_resolve_jumps` knows a jump and a label.
abbrev pub jump_jt : ℕ
jump_jt = 0xff

abbrev pub jump_jf : ℕ
jump_jf = 0xff

abbrev pub label_jt : ℕ
label_jt = 0xfe

abbrev pub label_jf : ℕ
label_jf = 0xfe

abbrev pub allow : SockFilter
allow = bpf_stmt bpf_ret seccomp_ret_allow

abbrev pub kill : SockFilter
kill = bpf_stmt bpf_ret seccomp_ret_kill

abbrev pub errno : ℕ → SockFilter
errno val = bpf_stmt bpf_ret (bit_or seccomp_ret_errno (bit_and val seccomp_ret_data))

-- `offsetof(struct seccomp_data, nr)` is 0, that of `arch` is 4 and that of `args[i]` is 16 + 8i.
abbrev pub load_syscall_nr : SockFilter
load_syscall_nr = bpf_stmt bpf_ld_abs 0

abbrev pub load_arch : SockFilter
load_arch = bpf_stmt bpf_ld_abs 4

abbrev pub lo_arg : ℕ → ℕ
lo_arg idx = 16 + 8 * idx

abbrev pub hi_arg : ℕ → ℕ
hi_arg idx = lo_arg idx + 4

-- JUMP and LABEL, after FIND_LABEL has given the label's number.
abbrev pub jump : ℕ → SockFilter
jump id = bpf_jump bpf_ja id jump_jt jump_jf

abbrev pub label : ℕ → SockFilter
label id = bpf_jump bpf_ja id label_jt label_jf

abbrev pub arg_64 : ℕ → List SockFilter
arg_64 idx =
    bpf_stmt bpf_ld_abs (lo_arg idx)
    ∷ bpf_stmt bpf_st 0
    ∷ bpf_stmt bpf_ld_abs (hi_arg idx)
    ∷ bpf_stmt bpf_st 1
    ∷ []

abbrev pub jeq32 : ℕ → SockFilter → List SockFilter
jeq32 value jt = bpf_jump bpf_jeq value 0 1 ∷ jt ∷ []

abbrev pub jne32 : ℕ → SockFilter → List SockFilter
jne32 value jt = bpf_jump bpf_jeq value 1 0 ∷ jt ∷ []

abbrev pub ja32 : ℕ → SockFilter → List SockFilter
ja32 value jt = bpf_jump bpf_jset value 0 1 ∷ jt ∷ []

abbrev pub jge32 : ℕ → SockFilter → List SockFilter
jge32 value jt = bpf_jump bpf_jge value 0 1 ∷ jt ∷ []

abbrev pub jlt32 : ℕ → SockFilter → List SockFilter
jlt32 value jt = bpf_jump bpf_jge value 1 0 ∷ jt ∷ []

abbrev pub jgt32 : ℕ → SockFilter → List SockFilter
jgt32 value jt = bpf_jump bpf_jgt value 0 1 ∷ jt ∷ []

abbrev pub jle32 : ℕ → SockFilter → List SockFilter
jle32 value jt = bpf_jump bpf_jgt value 1 0 ∷ jt ∷ []

-- The halves of `union arg64`.
abbrev pub lo32 : ℕ → ℕ
lo32 x = x % 2 ^ 32

abbrev pub hi32 : ℕ → ℕ
hi32 x = x / 2 ^ 32 % 2 ^ 32
