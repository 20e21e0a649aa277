-- ===== src/Seccomp/Resolve/Sound.antt =====
-- `bpf_resolve_jumps` agrees with its reference.
use nsjail.Common.{
  take, drop, take-all, drop-all, ℕ, ap, sym, ◌∙◌, ==_iff, not, get_or, suc, ◌+◌, ◌-◌, ◌%◌, ◌<◌,
  ◌≤◌, ◌≡◌, ◌≢◌, refl, ◌||◌, true, false, Option, none, some, List, [], ◌∷◌, length, rev_onto,
  arith, inl, inr, Option-cases, Bool-cases, get_or-set_self, get_or-set_ne, length-set,
  length-rev_onto, rev_onto-rev_onto, ◌==◌, if◌then◌else◌,
}
use mathlib.Core.Path.{subst}
use mathlib.Core.List.{append-nil}
use nsjail.Seccomp.Insn.{SockFilter}
use nsjail.Seccomp.Label.{BpfLabel, BpfLabels, unplaced, location_of, place, no_label}
use nsjail.Seccomp.Resolve.{is_jump, is_label, distance, fix_up, walk, bpf_resolve_jumps}
use nsjail.Seccomp.Resolve.Reference.{
  steps_to, farther, target, resolved, IsWithin, Agrees, steps_to-lt-length, resolved-rev_onto,
}

abbrev placed : ℕ → Option ℕ → ℕ
placed base none = unplaced
placed base (some n) = base + n

-- The table's locations are those of the labels in `fs`, whose first instruction has the number
-- `base`.
record IsTable (n base : ℕ) (fs : List SockFilter) (ls : BpfLabels) : Type 0 where
  size : length ls ≡ n
  at : (id : ℕ) → id < n → location_of ls id ≡ placed base (steps_to id fs)

location_of-place_self :
    (ls : BpfLabels) (id here : ℕ) → id < length ls → location_of (place ls id here) id ≡ here
location_of-place_self ls id here h =
    ap BpfLabel.location
      (get_or-set_self ls id (record (get_or ls id no_label) { location = here }) no_label h)

location_of-place_ne :
    (ls : BpfLabels) (id j here : ℕ) → id ≢ j → location_of (place ls id here) j ≡ location_of ls j
location_of-place_ne ls id j here h =
    ap BpfLabel.location
      (get_or-set_ne ls id j (record (get_or ls id no_label) { location = here }) no_label h)

placed-farther : (b : ℕ) (o : Option ℕ) → placed (b + 1) o ≡ placed b (farther o)
placed-farther b none = refl
placed-farther b (some n) = omega arith

IsTable-kept :
    (n b : ℕ) (f : SockFilter) (fs : List SockFilter) (ls : BpfLabels)
    → is_label f ≡ false
    → IsTable n (b + 1) fs ls
    → IsTable n b (f ∷ fs) ls
unfolding steps_to
IsTable-kept n b f fs ls e t = record {
  size = t.size;
  at = λ id h. rw e (t.at id h ∙ placed-farther b (steps_to id fs));
}

IsTable-placed :
    (n b : ℕ) (f : SockFilter) (fs : List SockFilter) (ls : BpfLabels)
    → is_label f ≡ true
    → f.k < n
    → IsTable n (b + 1) fs ls
    → IsTable n b (f ∷ fs) (place ls f.k b)
unfolding steps_to
IsTable-placed n b f fs ls e w t = record {
  size = length-set ls f.k _ ∙ t.size;
  at = λ id h. rw e (elim (Bool-cases (f.k == id)) [
    | inl same ↦ rw same (
        ap (location_of (place ls f.k b)) (sym ((==_iff f.k id).0 same))
        ∙ location_of-place_self ls f.k b (omega (arith, t.size))
        ∙ omega arith)
    | inr other ↦ rw other (
        location_of-place_ne ls f.k id b (ground arith)
        ∙ t.at id h
        ∙ placed-farther b (steps_to id fs))
  ]);
}

fix_up-jump :
    (f : SockFilter) (b : ℕ) (ls : BpfLabels)
    → is_jump f ≡ true
    → fix_up ls b f ≡ (
        if location_of ls f.k == unplaced
        then none
        else some (ls, record f { k = distance (location_of ls f.k) b; jt = 0; jf = 0 }))
unfolding fix_up
fix_up-jump f b ls h = ground arith

fix_up-label :
    (f : SockFilter) (b : ℕ) (ls : BpfLabels)
    → is_label f ≡ true
    → fix_up ls b f ≡ (
        if not (location_of ls f.k == unplaced)
        then none
        else some (place ls f.k b, record f { k = 0; jt = 0; jf = 0 }))
unfolding fix_up
fix_up-label f b ls h = ground arith

fix_up-other :
    (f : SockFilter) (b : ℕ) (ls : BpfLabels)
    → is_jump f ≡ false
    → is_label f ≡ false
    → fix_up ls b f ≡ some (ls, f)
unfolding fix_up
fix_up-other f b ls h g = ground arith

is_label-of_jump : (f : SockFilter) → is_jump f ≡ true → is_label f ≡ false
is_label-of_jump f h = ground arith

-- Whether a round succeeds, and what it leaves.
abbrev Continues :
    ℕ → ℕ → List SockFilter → Option SockFilter → Option (BpfLabels × SockFilter) → Type 0
Continues n base fs none r = r ≡ none
Continues n base fs (some g) r = (ls : BpfLabels) × (r ≡ some (ls, g)) × IsTable n base fs ls

-- A location that is known is no more than 255.
module _ (b : ℕ) (fs : List SockFilter) (fits : b + 1 + length fs ≤ 256) where
  distance_lem : (id s : ℕ) → steps_to id fs ≡ some s → distance (b + 1 + s) b ≡ s
  distance_lem id s e = let h = steps_to-lt-length id s fs e in omega arith

  placed-ne-unplaced : (id s : ℕ) → steps_to id fs ≡ some s → (b + 1 + s == unplaced) ≡ false
  placed-ne-unplaced id s e = let h = steps_to-lt-length id s fs e in ground arith

  module _ (n : ℕ) (f : SockFilter) (ls : BpfLabels) (t : IsTable n (b + 1) fs ls) where
    jump-Continues :
        is_jump f ≡ true → f.k < n → Continues n b (f ∷ fs) (target f fs) (fix_up ls b f)
    unfolding target
    jump-Continues j w =
        rw (j, fix_up-jump f b ls j, t.at f.k w)
          (elim (Option-cases (steps_to f.k fs)) [
            | inl e ↦ rw e refl
            | inr (s, e) ↦ rw e (
              ls,
              rw (placed-ne-unplaced f.k s e, distance_lem f.k s e),
              IsTable-kept n b f fs ls (is_label-of_jump f j) t,
            )
          ])

    label-Continues :
        is_jump f ≡ false
        → is_label f ≡ true
        → f.k < n
        → Continues n b (f ∷ fs) (target f fs) (fix_up ls b f)
    unfolding target
    label-Continues j l w =
        rw (j, l, fix_up-label f b ls l, t.at f.k w)
          (elim (Option-cases (steps_to f.k fs)) [
            | inl e ↦ rw e (place ls f.k b, refl, IsTable-placed n b f fs ls l w t)
            | inr (s, e) ↦ rw (e, placed-ne-unplaced f.k s e) refl
          ])

    fix_up-Continues :
        ((is_jump f || is_label f) ≡ true → f.k < n)
        → Continues n b (f ∷ fs) (target f fs) (fix_up ls b f)
    fix_up-Continues within = elim (Bool-cases (is_jump f)) [
      | inl j ↦ jump-Continues j (within (ground arith))
      | inr j ↦ elim (Bool-cases (is_label f)) [
        | inl l ↦ label-Continues j l (within (ground arith))
        | inr l ↦
            unfold target in
            rw (j, l, fix_up-other f b ls j l) (ls, refl, IsTable-kept n b f fs ls l t)
      ]
    ]

module _ (n : ℕ) where
  walk-Agrees :
      (before fs gs : List SockFilter) (ls : BpfLabels)
      → length before + length fs ≤ 256
      → IsWithin n before
      → resolved fs ≡ some gs
      → IsTable n (length before) fs ls
      → Agrees (resolved (rev_onto before fs)) (walk ls ((length before + 255) % 256) before gs)
  unfolding walk
  walk-Agrees [] fs gs ls fits w r t = rw r (refl, refl)
  walk-Agrees (f ∷ before) fs gs ls fits w r t = rw insn (elim (Option-cases (target f fs)) [
    | inl e ↦
        let q : fix_up ls (length before) f ≡ none = rw e at round in
        rw (q, walk, resolved-rev_onto before (f ∷ fs) (unfold resolved in rw e)) refl
    | inr (g, e) ↦
        let q : Continues n (length before) (f ∷ fs) (some g) (fix_up ls (length before) f) =
          rw e at round in
        rw (q.1, walk)
          (walk-Agrees before (f ∷ fs) (g ∷ gs) q.0 (omega arith) w.1 (unfold resolved in rw (e, r))
            q.2)
  ])
    where
      insn : (suc (length before) + 255) % 256 ≡ length before
      insn = omega arith

      next : suc (length before) ≡ length before + 1
      next = omega arith

      round : Continues n (length before) (f ∷ fs) (target f fs) (fix_up ls (length before) f)
      round =
          fix_up-Continues (length before) fs (omega arith) n f ls
            (subst (λ m. IsTable n m fs ls) next t) w.0

-- A table in which no label is placed.
abbrev pub IsUnplaced : BpfLabels → Type 0
IsUnplaced ls = (id : ℕ) → id < length ls → location_of ls id ≡ unplaced

rev_onto-nil : (xs : List SockFilter) → rev_onto (rev_onto xs []) [] ≡ xs
rev_onto-nil xs = rev_onto-rev_onto xs [] [] ∙ append-nil xs

IsWithin-rev_onto :
    (n : ℕ) (xs ys : List SockFilter) → IsWithin n xs → IsWithin n ys → IsWithin n (rev_onto xs ys)
IsWithin-rev_onto n [] ys p q = q
IsWithin-rev_onto n (x ∷ xs) ys p q = IsWithin-rev_onto n xs (x ∷ ys) p.1 (p.0, q)

-- On a program of 1 to 256 instructions whose labels all have entries in the table, none of them
-- placed, `bpf_resolve_jumps` agrees with the reference: it returns 1 if a jump's label does not
-- follow it or a label is repeated, and else 0 with every jump's distance to its label.
pub bpf_resolve_jumps-Agrees :
    (ls : BpfLabels) (filter : List SockFilter)
    → 0 < length filter
    → length filter ≤ 256
    → IsUnplaced ls
    → IsWithin (length ls) filter
    → Agrees (resolved filter) (bpf_resolve_jumps ls filter)
unfolding bpf_resolve_jumps
bpf_resolve_jumps-Agrees ls filter some_left fits fresh within =
    rw (not_empty, all_taken, none_left, insn)
      (rw (rev_onto-nil filter) at (
        walk-Agrees (length ls) (rev_onto filter []) [] [] ls (omega (arith, size))
          (IsWithin-rev_onto (length ls) filter [] within tt) (unfold resolved in refl)
          (record { size = refl; at = λ id h. unfold steps_to in fresh id h })))
  where
    size : length (rev_onto filter []) ≡ length filter + 0
    size = length-rev_onto filter []

    not_empty : (length filter == 0) ≡ false
    not_empty = ground arith

    all_taken : take ((length filter + 256 - 1) % 256 + 1) filter ≡ filter
    all_taken = take-all _ filter (omega arith)

    none_left : drop ((length filter + 256 - 1) % 256 + 1) filter ≡ []
    none_left = drop-all _ filter (omega arith)

    insn : (length filter + 256 - 1) % 256 ≡ (length (rev_onto filter []) + 255) % 256
    insn = omega (arith, size)
