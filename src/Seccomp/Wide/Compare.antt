-- ===== src/Seccomp/Wide/Compare.antt =====
-- What the 64-bit comparisons of seccomp/bpf-helper.h decide, on every BPF machine.
use Prim.Native.Nat.{bit_and}
use nsjail.Common.{
  ℕ, ◌+◌, ◌*◌, ◌^◌, ◌<◌, ◌≡◌, inl, inr, not, ◌&&◌, ◌||◌, Option, List, ◌∷◌, ◌++◌, arith, ltb, leb,
  ◌==◌, if◌then◌else◌, Bool-cases,
}
use nsjail.Seccomp.Insn.{SockFilter, bpf_stmt, bpf_ld_mem, lo32, hi32}
use nsjail.Seccomp.Wide.{
  jeq64, jne64, ja64, jge64, jlt64, jgt64, jle64, jeq, jne, ja, jge, jlt, jgt, jle,
}
use nsjail.Seccomp.Machine.{Machine}

module _ (bpf : Machine) (d : ℕ → ℕ) (jt : SockFilter) (p : List SockFilter) (m : ℕ → ℕ) where
  open bpf use {run, run-ld_mem, run-jeq, run-jgt, run-jge, run-jset}

  -- The argument that ARG_64 has loaded.
  abbrev arg : ℕ
  arg = m 1 * 2 ^ 32 + m 0

  -- The test holds: `jt` runs, with the high word in the accumulator.
  abbrev taken : Option ℕ
  taken = run d (jt ∷ bpf_stmt bpf_ld_mem 1 ∷ p) (m 1) m

  -- The test fails: `jt` is skipped, with the high word in the accumulator.
  abbrev passed_by : Option ℕ
  passed_by = run d p (m 1) m

  run-jeq64 :
      (lo hi : ℕ)
      → run d (jeq64 lo hi jt ++ p) (m 1) m
        ≡ (if (m 1 == hi) && (m 0 == lo) then taken else passed_by)
  unfolding jeq64
  run-jeq64 lo hi = elim (Bool-cases (m 1 == hi)) [
    | inl e ↦ elim (Bool-cases (m 0 == lo)) [
      | inl f ↦ simp (run-jeq, run-ld_mem, e, f)
      | inr f ↦ simp (run-jeq, run-ld_mem, e, f)
    ]
    | inr e ↦ simp (run-jeq, run-ld_mem, e)
  ]

  run-jne64 :
      (lo hi : ℕ)
      → run d (jne64 lo hi jt ++ p) (m 1) m
        ≡ (if not (m 1 == hi) && not (m 0 == lo) then taken else passed_by)
  unfolding jne64
  run-jne64 lo hi = elim (Bool-cases (m 1 == hi)) [
    | inl e ↦ simp (run-jeq, run-ld_mem, e)
    | inr e ↦ elim (Bool-cases (m 0 == lo)) [
      | inl f ↦ simp (run-jeq, run-ld_mem, e, f)
      | inr f ↦ simp (run-jeq, run-ld_mem, e, f)
    ]
  ]

  run-ja64 :
      (lo hi : ℕ)
      → run d (ja64 lo hi jt ++ p) (m 1) m
        ≡ (if not (bit_and (m 1) hi == 0) || not (bit_and (m 0) lo == 0) then taken else passed_by)
  unfolding ja64
  run-ja64 lo hi = elim (Bool-cases (bit_and (m 1) hi == 0)) [
    | inl e ↦ elim (Bool-cases (bit_and (m 0) lo == 0)) [
      | inl f ↦ simp (run-jset, run-ld_mem, e, f)
      | inr f ↦ simp (run-jset, run-ld_mem, e, f)
    ]
    | inr e ↦ simp (run-jset, run-ld_mem, e)
  ]

  run-jge64 :
      (lo hi : ℕ)
      → run d (jge64 lo hi jt ++ p) (m 1) m
        ≡ (if ltb hi (m 1) || (m 1 == hi) && leb lo (m 0) then taken else passed_by)
  unfolding jge64
  run-jge64 lo hi = elim (Bool-cases (ltb hi (m 1))) [
    | inl g ↦ simp (run-jgt, run-jge, run-jeq, run-ld_mem, g)
    | inr g ↦ elim (Bool-cases (m 1 == hi)) [
      | inl e ↦ elim (Bool-cases (leb lo (m 0))) [
        | inl f ↦ simp (run-jgt, run-jge, run-jeq, run-ld_mem, g, e, f)
        | inr f ↦ simp (run-jgt, run-jge, run-jeq, run-ld_mem, g, e, f)
      ]
      | inr e ↦ simp (run-jgt, run-jge, run-jeq, run-ld_mem, g, e)
    ]
  ]

  run-jgt64 :
      (lo hi : ℕ)
      → run d (jgt64 lo hi jt ++ p) (m 1) m
        ≡ (if ltb hi (m 1) || (m 1 == hi) && ltb lo (m 0) then taken else passed_by)
  unfolding jgt64
  run-jgt64 lo hi = elim (Bool-cases (ltb hi (m 1))) [
    | inl g ↦ simp (run-jgt, run-jge, run-jeq, run-ld_mem, g)
    | inr g ↦ elim (Bool-cases (m 1 == hi)) [
      | inl e ↦ elim (Bool-cases (ltb lo (m 0))) [
        | inl f ↦ simp (run-jgt, run-jge, run-jeq, run-ld_mem, g, e, f)
        | inr f ↦ simp (run-jgt, run-jge, run-jeq, run-ld_mem, g, e, f)
      ]
      | inr e ↦ simp (run-jgt, run-jge, run-jeq, run-ld_mem, g, e)
    ]
  ]

  run-jlt64 :
      (lo hi : ℕ)
      → run d (jlt64 lo hi jt ++ p) (m 1) m
        ≡ (if not (leb hi (m 1)) || (m 1 == hi) && not (ltb lo (m 0)) then taken else passed_by)
  unfolding jlt64
  run-jlt64 lo hi = elim (Bool-cases (leb hi (m 1))) [
    | inl g ↦ elim (Bool-cases (m 1 == hi)) [
      | inl e ↦ elim (Bool-cases (ltb lo (m 0))) [
        | inl f ↦ simp (run-jgt, run-jge, run-jeq, run-ld_mem, g, e, f)
        | inr f ↦ simp (run-jgt, run-jge, run-jeq, run-ld_mem, g, e, f)
      ]
      | inr e ↦ simp (run-jgt, run-jge, run-jeq, run-ld_mem, g, e)
    ]
    | inr g ↦ simp (run-jgt, run-jge, run-jeq, run-ld_mem, g)
  ]

  run-jle64 :
      (lo hi : ℕ)
      → run d (jle64 lo hi jt ++ p) (m 1) m ≡ (
          if not (ltb hi (m 1)) && (not (m 1 == hi) || not (ltb lo (m 0)))
          then taken
          else passed_by)
  unfolding jle64
  run-jle64 lo hi = elim (Bool-cases (ltb hi (m 1))) [
    | inl g ↦ simp (run-jgt, run-jge, run-jeq, run-ld_mem, g)
    | inr g ↦ elim (Bool-cases (m 1 == hi)) [
      | inl e ↦ elim (Bool-cases (ltb lo (m 0))) [
        | inl f ↦ simp (run-jgt, run-jge, run-jeq, run-ld_mem, g, e, f)
        | inr f ↦ simp (run-jgt, run-jge, run-jeq, run-ld_mem, g, e, f)
      ]
      | inr e ↦ simp (run-jgt, run-jge, run-jeq, run-ld_mem, g, e)
    ]
  ]

  jeq_decides :
      (x : ℕ)
      → x < 2 ^ 64
      → m 0 < 2 ^ 32
      → m 1 < 2 ^ 32
      → run d (jeq x jt ++ p) (m 1) m ≡ (if arg == x then taken else passed_by)
  unfolding jeq
  jeq_decides x h l k = rw (run-jeq64 (lo32 x) (hi32 x)) (ground arith)

  jge_decides :
      (x : ℕ)
      → x < 2 ^ 64
      → m 0 < 2 ^ 32
      → m 1 < 2 ^ 32
      → run d (jge x jt ++ p) (m 1) m ≡ (if leb x arg then taken else passed_by)
  unfolding jge
  jge_decides x h l k = rw (run-jge64 (lo32 x) (hi32 x)) (ground arith)

  jgt_decides :
      (x : ℕ)
      → x < 2 ^ 64
      → m 0 < 2 ^ 32
      → m 1 < 2 ^ 32
      → run d (jgt x jt ++ p) (m 1) m ≡ (if ltb x arg then taken else passed_by)
  unfolding jgt
  jgt_decides x h l k = rw (run-jgt64 (lo32 x) (hi32 x)) (ground arith)

  jle_decides :
      (x : ℕ)
      → x < 2 ^ 64
      → m 0 < 2 ^ 32
      → m 1 < 2 ^ 32
      → run d (jle x jt ++ p) (m 1) m ≡ (if leb arg x then taken else passed_by)
  unfolding jle
  jle_decides x h l k = rw (run-jle64 (lo32 x) (hi32 x)) (ground arith)

  jlt_decides :
      (x : ℕ)
      → x < 2 ^ 64
      → m 0 < 2 ^ 32
      → m 1 < 2 ^ 32
      → run d (jlt x jt ++ p) (m 1) m ≡ (if leb arg x then taken else passed_by)
  unfolding jlt
  jlt_decides x h l k = rw (run-jlt64 (lo32 x) (hi32 x)) (ground arith)

  -- JEQ, JGE, JGT and JLE run their instruction exactly when the argument is `x`, at least `x`, more
  -- than `x` and at most `x`, and so does JLT when it is at most `x`, so also when it is `x`, for a
  -- 64-bit `x` and an argument in two 32-bit words.
  pub comparisons_decide :
      (x : ℕ)
      → x < 2 ^ 64
      → m 0 < 2 ^ 32
      → m 1 < 2 ^ 32
      → (run d (jeq x jt ++ p) (m 1) m ≡ (if arg == x then taken else passed_by))
        × (run d (jge x jt ++ p) (m 1) m ≡ (if leb x arg then taken else passed_by))
        × (run d (jgt x jt ++ p) (m 1) m ≡ (if ltb x arg then taken else passed_by))
        × (run d (jle x jt ++ p) (m 1) m ≡ (if leb arg x then taken else passed_by))
        × (run d (jlt x jt ++ p) (m 1) m ≡ (if leb arg x then taken else passed_by))
  comparisons_decide x h l k = (
    jeq_decides x h l k,
    jge_decides x h l k,
    jgt_decides x h l k,
    jle_decides x h l k,
    jlt_decides x h l k,
  )

  -- JNE runs its instruction exactly when both words of the argument differ from those of `x`.
  pub jne_decides :
      (x : ℕ)
      → run d (jne x jt ++ p) (m 1) m
        ≡ (if not (m 1 == hi32 x) && not (m 0 == lo32 x) then taken else passed_by)
  unfolding jne
  jne_decides x = run-jne64 (lo32 x) (hi32 x)

  -- JA runs its instruction exactly when a bit of `x` is set in one of the argument's words.
  pub ja_decides :
      (x : ℕ)
      → run d (ja x jt ++ p) (m 1) m ≡ (
          if not (bit_and (m 1) (hi32 x) == 0) || not (bit_and (m 0) (lo32 x) == 0)
          then taken
          else passed_by)
  unfolding ja
  ja_decides x = run-ja64 (lo32 x) (hi32 x)
