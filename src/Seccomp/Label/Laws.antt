-- ===== src/Seccomp/Label/Laws.antt =====
-- The number that `seccomp_bpf_label` gives a label, and what becomes of the others.
use text.Mathlib.Text.{◌==◌ as str_eq}
use text.Mathlib.TextEquality.{eq_iff}
use Prim.Native.Nat.add
use native.Mathlib.Decide.{ℕ_discrete}
use nsjail.Common.{
  ℕ, zero, suc, ◌+◌, ◌≤◌, String, ◌≡◌, ◌≢◌, refl, sym, ◌∙◌, ◌⊎◌, inl, inr, Option, none, some, [],
  ◌∷◌, length, arith, ◌==◌, if◌then◌else◌,
}
use nsjail.Seccomp.Label.{BpfLabels, bpf_labels_max, unplaced, find_label, seccomp_bpf_label}

abbrev pub label_at : BpfLabels → ℕ → Option String
label_at [] i = none
label_at (e ∷ es) zero = some e.label
label_at (e ∷ es) (suc i) = label_at es i

-- No label has two numbers.
abbrev pub IsDistinct : BpfLabels → Type 0
IsDistinct ls = (i j : ℕ) (x : String) → label_at ls i ≡ some x → label_at ls j ≡ some x → i ≡ j

first_index : String → BpfLabels → ℕ
first_index l [] = 0
first_index l (e ∷ es) = if str_eq l e.label then 0 else suc (first_index l es)

extended : String → BpfLabels → BpfLabels
extended l [] = record { label = l; location = unplaced } ∷ []
extended l (e ∷ es) = if str_eq l e.label then e ∷ es else e ∷ extended l es

find_label_lem :
    (l : String) (n : ℕ) (es : BpfLabels)
    → find_label l n es ≡ (n + first_index l es, extended l es)
unfolding find_label first_index extended
find_label_lem l n [] = ground arith
find_label_lem l n (e ∷ es) = ground (arith, find_label_lem l (n + 1) es)

label_at-extended_self :
    (l : String) (es : BpfLabels) → label_at (extended l es) (first_index l es) ≡ some l
unfolding extended first_index
label_at-extended_self l [] = refl
label_at-extended_self l (e ∷ es) = ground (arith, eq_iff l e.label, label_at-extended_self l es)

label_at-extended_old :
    (l x : String) (es : BpfLabels) (j : ℕ)
    → label_at es j ≡ some x
    → label_at (extended l es) j ≡ some x
unfolding extended
label_at-extended_old l x [] j h = cc
label_at-extended_old l x (e ∷ es) zero h = ground arith
label_at-extended_old l x (e ∷ es) (suc j) h = ground (arith, label_at-extended_old l x es j h)

label_at-extended_inv :
    (l x : String) (es : BpfLabels) (j : ℕ)
    → label_at (extended l es) j ≡ some x
    → (label_at es j ≡ some x) ⊎ ((x ≡ l) × (j ≡ first_index l es))
unfolding extended first_index
label_at-extended_inv l x [] zero h = inr (ground arith, refl)
label_at-extended_inv l x [] (suc j) h = ground arith
label_at-extended_inv l x (e ∷ es) zero h = ground arith
label_at-extended_inv l x (e ∷ es) (suc j) h = ground (arith, label_at-extended_inv l x es j)

label_at-first_index :
    (l : String) (es : BpfLabels) (j : ℕ)
    → label_at es j ≡ some l
    → label_at es (first_index l es) ≡ some l
unfolding first_index
label_at-first_index l [] j h = cc
label_at-first_index l (e ∷ es) zero h = ground (arith, eq_iff l e.label)
label_at-first_index l (e ∷ es) (suc j) h =
    ground (arith, eq_iff l e.label, label_at-first_index l es j h)

length-extended : (l : String) (es : BpfLabels) → length (extended l es) ≤ length es + 1
unfolding extended
length-extended l [] = omega arith
length-extended l (e ∷ es) = ground (arith, length-extended l es)

extended-IsDistinct : (l : String) (es : BpfLabels) → IsDistinct es → IsDistinct (extended l es)
extended-IsDistinct l es h i j x p q = elim (label_at-extended_inv l x es i p) [
  | inl a ↦ elim (label_at-extended_inv l x es j q) [
    | inl b ↦ h i j x a b
    | inr (e, b) ↦ new i a e ∙ sym b
  ]
  | inr (e, a) ↦ elim (label_at-extended_inv l x es j q) [
    | inl b ↦ a ∙ sym (new j b e)
    | inr (e', b) ↦ a ∙ sym b
  ]
]
  where
    new : (k : ℕ) → label_at es k ≡ some x → x ≡ l → k ≡ first_index l es
    new k a e =
        let b : label_at es k ≡ some l = cc in
        h k (first_index l es) l b (label_at-first_index l es k b)

first_index-extended :
    (l : String) (es : BpfLabels) → first_index l (extended l es) ≡ first_index l es
unfolding extended first_index
first_index-extended l [] = ground (arith, eq_iff l l)
first_index-extended l (e ∷ es) = ground (arith, eq_iff l e.label, first_index-extended l es)

extended-extended : (l : String) (es : BpfLabels) → extended l (extended l es) ≡ extended l es
unfolding extended
extended-extended l [] = ground (arith, eq_iff l l)
extended-extended l (e ∷ es) = ground (arith, eq_iff l e.label, extended-extended l es)

-- What a call leaves behind: the label has its number, the older labels have theirs, no label has
-- two, and the table is within its bounds.
pub record IsNumbered (l : String) (ls : BpfLabels) (id : ℕ) (ls' : BpfLabels) : Type 0 where
  pub here : label_at ls' id ≡ some l
  pub kept : (j : ℕ) (x : String) → label_at ls j ≡ some x → label_at ls' j ≡ some x
  pub distinct : IsDistinct ls'
  pub fits : length ls' ≤ bpf_labels_max

find_label-IsNumbered :
    (l : String) (ls : BpfLabels)
    → length ls ≢ bpf_labels_max
    → length ls ≤ bpf_labels_max
    → IsDistinct ls
    → IsNumbered l ls (find_label l 0 ls).0 (find_label l 0 ls).1
find_label-IsNumbered l ls room fits h =
    rw (find_label_lem l 0 ls, add.zero)
      (record {
        here = label_at-extended_self l ls;
        kept = λ j x. label_at-extended_old l x ls j;
        distinct = extended-IsDistinct l ls h;
        fits = omega (arith, length-extended l ls);
      })

-- From a table of at most 256 distinct labels, `seccomp_bpf_label` exits only if all 256 are
-- taken; else it numbers the label, keeps the older numbers and keeps the table well formed.
pub seccomp_bpf_label-IsNumbered :
    (l : String) (ls : BpfLabels)
    → length ls ≤ bpf_labels_max
    → IsDistinct ls
    → (length ls ≡ bpf_labels_max) × (seccomp_bpf_label ls l ≡ none)
      ⊎ ((id : ℕ) × (ls' : BpfLabels) × (seccomp_bpf_label ls l ≡ some (id, ls'))
          × IsNumbered l ls id ls')
unfolding seccomp_bpf_label
seccomp_bpf_label-IsNumbered l ls fits h = elim (ℕ_discrete (length ls) bpf_labels_max) [
  | yes e ↦ inl (e, ground arith)
  | no n ↦ inr (
    (find_label l 0 ls).0,
    (find_label l 0 ls).1,
    ground arith,
    find_label-IsNumbered l ls n fits h,
  )
]

-- A second use of a label gives the same number and the same table, unless the first one has
-- filled the table: then the program exits, though the label is known.
pub seccomp_bpf_label_again :
    (l : String) (ls ls' : BpfLabels) (id : ℕ)
    → seccomp_bpf_label ls l ≡ some (id, ls')
    → seccomp_bpf_label ls' l ≡ (if length ls' == bpf_labels_max then none else some (id, ls'))
unfolding seccomp_bpf_label
seccomp_bpf_label_again l ls ls' id h = ground (
  arith,
  find_label_lem l 0 ls,
  find_label_lem l 0 ls',
  first_index-extended l ls,
  extended-extended l ls,
)
