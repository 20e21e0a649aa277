-- ===== src/Seccomp/Machine.antt =====
-- The kernel's BPF machine, which nsjail does not implement: an interface whose laws are the
-- documented effect of each instruction that the program uses. A jump skips instructions that
-- follow, so what is left to run is a list.
use Prim.Native.Nat.{bit_and}
use nsjail.Common.{ℕ, ◌≡◌, List, ◌∷◌, drop, ltb, leb, ◌==◌, if◌then◌else◌, Option, some}
use nsjail.Seccomp.Insn.{
  SockFilter, bpf_stmt, bpf_jump, bpf_ld_abs, bpf_ld_mem, bpf_st, bpf_ret, bpf_ja, bpf_jeq, bpf_jgt,
  bpf_jge, bpf_jset,
}

abbrev pub store : (ℕ → ℕ) → ℕ → ℕ → ℕ → ℕ
store m i v j = if i == j then v else m j

-- `run d p a m`: the value that the program `p` returns on the packet whose word at offset `i` is
-- `d i`, from accumulator `a` and scratch memory `m`.
pub record Machine : Type 0 where
  pub run : (ℕ → ℕ) → List SockFilter → ℕ → (ℕ → ℕ) → Option ℕ
  pub run-ld_abs :
      (d : ℕ → ℕ) (k a : ℕ) (m : ℕ → ℕ) (p : List SockFilter)
      → run d (bpf_stmt bpf_ld_abs k ∷ p) a m ≡ run d p (d k) m
  pub run-ld_mem :
      (d : ℕ → ℕ) (k a : ℕ) (m : ℕ → ℕ) (p : List SockFilter)
      → run d (bpf_stmt bpf_ld_mem k ∷ p) a m ≡ run d p (m k) m
  pub run-st :
      (d : ℕ → ℕ) (k a : ℕ) (m : ℕ → ℕ) (p : List SockFilter)
      → run d (bpf_stmt bpf_st k ∷ p) a m ≡ run d p a (store m k a)
  pub run-ret :
      (d : ℕ → ℕ) (k a : ℕ) (m : ℕ → ℕ) (p : List SockFilter)
      → run d (bpf_stmt bpf_ret k ∷ p) a m ≡ some k
  pub run-ja :
      (d : ℕ → ℕ) (k a : ℕ) (m : ℕ → ℕ) (p : List SockFilter)
      → run d (bpf_jump bpf_ja k 0 0 ∷ p) a m ≡ run d (drop k p) a m
  pub run-jeq :
      (d : ℕ → ℕ) (k jt jf a : ℕ) (m : ℕ → ℕ) (p : List SockFilter)
      → run d (bpf_jump bpf_jeq k jt jf ∷ p) a m ≡ run d (drop (if a == k then jt else jf) p) a m
  pub run-jgt :
      (d : ℕ → ℕ) (k jt jf a : ℕ) (m : ℕ → ℕ) (p : List SockFilter)
      → run d (bpf_jump bpf_jgt k jt jf ∷ p) a m ≡ run d (drop (if ltb k a then jt else jf) p) a m
  pub run-jge :
      (d : ℕ → ℕ) (k jt jf a : ℕ) (m : ℕ → ℕ) (p : List SockFilter)
      → run d (bpf_jump bpf_jge k jt jf ∷ p) a m ≡ run d (drop (if leb k a then jt else jf) p) a m
  pub run-jset :
      (d : ℕ → ℕ) (k jt jf a : ℕ) (m : ℕ → ℕ) (p : List SockFilter)
      → run d (bpf_jump bpf_jset k jt jf ∷ p) a m
        ≡ run d (drop (if bit_and a k == 0 then jf else jt) p) a m
