-- ===== src/Tests/Filters.antt =====
-- The seccomp compiler and the policy, on small programs.
use text.Mathlib.Text.{◌==◌ as str_eq}
use nsjail.Common.{
  ap, Bool, false, ℕ, zero, suc, ◌≡◌, ◌≢◌, String, sym, ◌∙◌, ◌⊎◌, refl, List, [], ◌∷◌, ◌++◌, length,
  none, some, Option, arith, true,
}
use nsjail.Common.Int.{pos}
use nsjail.Seccomp.Insn.{SockFilter, allow, kill, jump, label, load_arch}
use nsjail.Seccomp.Label.{BpfLabels, unplaced, seccomp_bpf_label}
use nsjail.Seccomp.Label.Laws.{
  IsDistinct, IsNumbered, seccomp_bpf_label-IsNumbered, seccomp_bpf_label_again,
}
use nsjail.Seccomp.Resolve.{bpf_resolve_jumps}
use nsjail.Seccomp.Resolve.Reference.{resolved, Agrees, IsWithin}
use nsjail.Seccomp.Resolve.Sound.{IsUnplaced, bpf_resolve_jumps-Agrees}
use nsjail.Seccomp.Resolve.Jumps.{Lands, bpf_resolve_jumps-Lands}
use nsjail.Common.Text.{bytes, print_ℕ}
use nsjail.Seccomp.Print.{seccomp_bpf_print}
use nsjail.Seccomp.Wide.{jeq, jge, jgt, jle, jlt, jne, ja}
use nsjail.Seccomp.Wide.Compare.{comparisons_decide, jne_decides, ja_decides}
use nsjail.Tests.Interp.{machine, interp}

-- Two labels, not yet placed.
abbrev two_labels : BpfLabels
two_labels =
    record { label = "i386"; location = unplaced }
    ∷ record { label = "x86_64"; location = unplaced }
    ∷ []

abbrev program : List SockFilter
program = load_arch ∷ jump 1 ∷ allow ∷ jump 0 ∷ label 1 ∷ kill ∷ label 0 ∷ allow ∷ []

abbrev is_i386 : Option String → Bool
is_i386 none = true
is_i386 (some l) = str_eq "i386" l

names_differ : ◌≢◌ {A = Option String} (some "i386") (some "x86_64")
names_differ h = let e : true ≡ false = ap is_i386 h in ground arith

two_labels-IsDistinct : IsDistinct two_labels
two_labels-IsDistinct zero zero x p q = refl
two_labels-IsDistinct zero (suc zero) x p q = absurd (names_differ (p ∙ sym q))
two_labels-IsDistinct (suc zero) zero x p q = absurd (names_differ (q ∙ sym p))
two_labels-IsDistinct (suc zero) (suc zero) x p q = refl
two_labels-IsDistinct i (suc (suc j)) x p q = absurd (ground arith)
two_labels-IsDistinct (suc (suc i)) j x p q = absurd (ground arith)

two_labels-IsUnplaced : IsUnplaced two_labels
two_labels-IsUnplaced zero h = refl
two_labels-IsUnplaced (suc zero) h = refl
two_labels-IsUnplaced (suc (suc id)) h = absurd (omega arith)

program-IsWithin : IsWithin 2 program
program-IsWithin = ground arith

seccomp_bpf_label-IsNumbered_example :
    (length two_labels ≡ 256) × (seccomp_bpf_label two_labels "arm" ≡ none)
    ⊎ ((id : ℕ) × (ls : BpfLabels) × (seccomp_bpf_label two_labels "arm" ≡ some (id, ls))
        × IsNumbered "arm" two_labels id ls)
seccomp_bpf_label-IsNumbered_example =
    seccomp_bpf_label-IsNumbered "arm" two_labels (omega arith) two_labels-IsDistinct

known : seccomp_bpf_label two_labels "x86_64" ≡ some (1, two_labels)
unfolding seccomp_bpf_label
known = refl

seccomp_bpf_label_again_example : seccomp_bpf_label two_labels "x86_64" ≡ some (1, two_labels)
seccomp_bpf_label_again_example = seccomp_bpf_label_again "x86_64" two_labels two_labels 1 known

bpf_resolve_jumps-Agrees_example : Agrees (resolved program) (bpf_resolve_jumps two_labels program)
bpf_resolve_jumps-Agrees_example =
    bpf_resolve_jumps-Agrees two_labels program (omega arith) (omega arith) two_labels-IsUnplaced
      program-IsWithin

resolves : (bpf_resolve_jumps two_labels program).code ≡ pos 0
unfolding bpf_resolve_jumps
resolves = refl

bpf_resolve_jumps-Lands_example :
    Lands program (bpf_resolve_jumps two_labels program).filter 1 (jump 1)
bpf_resolve_jumps-Lands_example =
    bpf_resolve_jumps-Lands two_labels program 1 (jump 1) (omega arith) (omega arith)
      two_labels-IsUnplaced program-IsWithin resolves refl refl

abbrev packet : ℕ → ℕ
packet i = 0

-- An argument whose high word is 2 and whose low word is 7.
abbrev words : ℕ → ℕ
words zero = 7
words (suc i) = 2

abbrev x : ℕ
x = 0x2_0000_0007

-- What runs after the comparison.
abbrev rest : List SockFilter
rest = allow ∷ []

comparisons_decide_example :
    (machine.run packet (jeq x kill ++ rest) 2 words ≡ some 0)
    × (machine.run packet (jge x kill ++ rest) 2 words ≡ some 0)
    × (machine.run packet (jgt x kill ++ rest) 2 words ≡ some 0x7fff_0000)
    × (machine.run packet (jle x kill ++ rest) 2 words ≡ some 0)
    × (machine.run packet (jlt x kill ++ rest) 2 words ≡ some 0)
unfolding machine interp
comparisons_decide_example =
    comparisons_decide machine packet kill rest words x (omega arith) (omega arith) (omega arith)

-- The low words are equal, the high words are not.
jne_decides_example : machine.run packet (jne 0x1_0000_0007 kill ++ rest) 2 words ≡ some 0x7fff_0000
unfolding machine interp
jne_decides_example = jne_decides machine packet kill rest words 0x1_0000_0007

ja_decides_example : machine.run packet (ja 0x2_0000_0000 kill ++ rest) 2 words ≡ some 0
unfolding machine interp
ja_decides_example = ja_decides machine packet kill rest words 0x2_0000_0000

killed : seccomp_bpf_print (kill ∷ []) ≡ bytes "{ code=6,jt=0,jf=0,k=0 },\n"
unfolding seccomp_bpf_print print_ℕ
killed = refl
