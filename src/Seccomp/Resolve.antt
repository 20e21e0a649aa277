-- ===== src/Seccomp/Resolve.antt =====
-- seccomp/bpf-helper.c: `bpf_resolve_jumps`, which replaces labels by distances. The array behind
-- `filter` is a list, and `count` is its length.
pub mod Reference
pub mod Sound
pub mod Jumps
use nsjail.Common.{
  ℕ, ◌+◌, ◌-◌, ◌*◌, ◌%◌, ◌^◌, Bool, not, ◌&&◌, Option, none, some, List, [], ◌∷◌, length, take,
  drop, rev_onto, ◌==◌, if◌then◌else◌,
}
use nsjail.Common.Int.{ℤ, pos, negsuc}
use nsjail.Seccomp.Insn.{SockFilter, bpf_ja, jump_jt, jump_jf, label_jt, label_jf}
use nsjail.Seccomp.Label.{BpfLabels, unplaced, location_of, place}

-- The switch's value, `(filter->jt << 8) | filter->jf` on bytes.
abbrev pub mark : ℕ → ℕ → ℕ
mark jt jf = jt * 2 ^ 8 + jf

abbrev pub is_jump : SockFilter → Bool
is_jump f = f.code == bpf_ja && mark f.jt f.jf == mark jump_jt jump_jf

abbrev pub is_label : SockFilter → Bool
is_label f = f.code == bpf_ja && mark f.jt f.jf == mark label_jt label_jf

-- The unsigned 32-bit difference `location - (insn + 1)`.
abbrev pub distance : ℕ → ℕ → ℕ
distance location insn = (location + 2 ^ 32 - (insn + 1)) % 2 ^ 32

-- One round of the loop: `none` is an unresolved or a duplicate label, for which the function
-- returns 1.
pub fix_up : BpfLabels → ℕ → SockFilter → Option (BpfLabels × SockFilter)
fix_up ls insn f =
    if not (f.code == bpf_ja)
    then some (ls, f)
    else if mark f.jt f.jf == mark jump_jt jump_jf
    then if location_of ls f.k == unplaced
      then none
      else some (ls, record f { k = distance (location_of ls f.k) insn; jt = 0; jf = 0 })
    else if mark f.jt f.jf == mark label_jt label_jf
    then if not (location_of ls f.k == unplaced)
      then none
      else some (place ls f.k insn, record f { k = 0; jt = 0; jf = 0 })
    else some (ls, f)

-- What the function has done to its arguments: its code, the labels and the program.
pub record Resolved : Type 0 where
  pub code : ℤ
  pub labels : BpfLabels
  pub filter : List SockFilter

-- The loop: `before` lists the instructions that are left, the last one first, and `after` those
-- that are done. `insn` is a byte.
pub walk : BpfLabels → ℕ → List SockFilter → List SockFilter → Resolved
walk ls insn [] after = record { code = pos 0; labels = ls; filter = after }
walk ls insn (f ∷ before) after = elim (fix_up ls insn f) [
  | none ↦ record { code = pos 1; labels = ls; filter = rev_onto before (f ∷ after) }
  | some (ls', f') ↦ walk ls' ((insn + 255) % 256) before (f' ∷ after)
]

-- `filter` is moved on by the byte `insn`, so of more than 256 instructions those behind are not
-- come to.
unfoldable pub bpf_resolve_jumps : BpfLabels → List SockFilter → Resolved
unfolding walk fix_up
bpf_resolve_jumps ls filter =
    if length filter == 0
    then record { code = negsuc 0; labels = ls; filter = filter }
    else (let insn = (length filter + 2 ^ 8 - 1) % 2 ^ 8 in
        walk ls insn (rev_onto (take (insn + 1) filter) []) (drop (insn + 1) filter))
