-- ===== src/Tests/Interp.antt =====
-- A BPF machine by recursion on the program: an instance of the interface.
use Prim.Native.Nat.{bit_and}
use nsjail.Common.{
  ℕ, zero, suc, ◌≡◌, refl, List, [], ◌∷◌, drop, ltb, leb, ◌==◌, if◌then◌else◌, Option, none, some,
}
use nsjail.Seccomp.Insn.{
  SockFilter, bpf_ld_abs, bpf_ld_mem, bpf_st, bpf_ret, bpf_ja, bpf_jeq, bpf_jgt, bpf_jge, bpf_jset,
}
use nsjail.Seccomp.Machine.{Machine, store}

-- After an instruction: the program's value, or how many instructions to skip, the accumulator
-- and the memory.
pub data Next : Type 0 where
  returns : Option ℕ → Next
  goes : ℕ → ℕ → (ℕ → ℕ) → Next

abbrev pub next : (ℕ → ℕ) → SockFilter → ℕ → (ℕ → ℕ) → Next
next d f a m =
    if f.code == bpf_ld_abs
    then goes 0 (d f.k) m
    else if f.code == bpf_ld_mem
    then goes 0 (m f.k) m
    else if f.code == bpf_st
    then goes 0 a (store m f.k a)
    else if f.code == bpf_ret
    then returns (some f.k)
    else if f.code == bpf_ja
    then goes f.k a m
    else if f.code == bpf_jeq
    then goes (if a == f.k then f.jt else f.jf) a m
    else if f.code == bpf_jgt
    then goes (if ltb f.k a then f.jt else f.jf) a m
    else if f.code == bpf_jge
    then goes (if leb f.k a then f.jt else f.jf) a m
    else if f.code == bpf_jset
    then goes (if bit_and a f.k == 0 then f.jf else f.jt) a m
    else returns none

unfoldable pub interp : (ℕ → ℕ) → List SockFilter → ℕ → ℕ → (ℕ → ℕ) → Option ℕ
interp d [] skip a m = none
interp d (f ∷ p) (suc skip) a m = interp d p skip a m
interp d (f ∷ p) zero a m = elim (next d f a m) [
  | returns v ↦ v
  | goes skip a' m' ↦ interp d p skip a' m'
]

pub interp-drop :
    (d : ℕ → ℕ) (p : List SockFilter) (k a : ℕ) (m : ℕ → ℕ)
    → interp d p k a m ≡ interp d (drop k p) 0 a m
unfolding interp
interp-drop d [] zero a m = refl
interp-drop d [] (suc k) a m = refl
interp-drop d (f ∷ p) zero a m = refl
interp-drop d (f ∷ p) (suc k) a m = interp-drop d p k a m

unfoldable pub machine : Machine
unfolding interp
machine = record {
  run = λ d p a m. interp d p 0 a m;
  run-ld_abs = λ d k a m p. refl;
  run-ld_mem = λ d k a m p. refl;
  run-st = λ d k a m p. refl;
  run-ret = λ d k a m p. refl;
  run-ja = λ d k a m p. interp-drop d p k a m;
  run-jeq = λ d k jt jf a m p. interp-drop d p (if a == k then jt else jf) a m;
  run-jgt = λ d k jt jf a m p. interp-drop d p (if ltb k a then jt else jf) a m;
  run-jge = λ d k jt jf a m p. interp-drop d p (if leb k a then jt else jf) a m;
  run-jset = λ d k jt jf a m p. interp-drop d p (if bit_and a k == 0 then jf else jt) a m;
}
