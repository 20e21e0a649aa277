-- ===== src/Seccomp/Resolve/Reference.antt =====
-- A reference for `bpf_resolve_jumps`: forwards, with no table, each jump by a search of what
-- follows it.
use nsjail.Common.{
  ℕ, suc, ◌<◌, ◌≡◌, refl, ◌||◌, ◌&&◌, true, Option, none, some, List, [], ◌∷◌, length, rev_onto,
  arith, inl, inr, Option-cases, ◌==◌, if◌then◌else◌,
}
use nsjail.Common.Int.{pos}
use nsjail.Seccomp.Insn.{SockFilter}
use nsjail.Seccomp.Resolve.{is_jump, is_label, Resolved}

abbrev pub farther : Option ℕ → Option ℕ
farther none = none
farther (some n) = some (suc n)

-- How many instructions stand before the label `id`.
unfoldable pub steps_to : ℕ → List SockFilter → Option ℕ
steps_to id [] = none
steps_to id (f ∷ fs) = if is_label f && f.k == id then some 0 else farther (steps_to id fs)

abbrev pub go : SockFilter → Option ℕ → Option SockFilter
go f none = none
go f (some n) = some (record f { k = n; jt = 0; jf = 0 })

abbrev pub stay : SockFilter → Option ℕ → Option SockFilter
stay f none = some (record f { k = 0; jt = 0; jf = 0 })
stay f (some n) = none

-- An instruction in front of `fs`: a jump goes to its label, which must follow; a label does
-- nothing, and must not be repeated.
unfoldable pub target : SockFilter → List SockFilter → Option SockFilter
target f fs =
    if is_jump f
    then go f (steps_to f.k fs)
    else if is_label f
    then stay f (steps_to f.k fs)
    else some f

abbrev pub consed : Option SockFilter → Option (List SockFilter) → Option (List SockFilter)
consed none r = none
consed (some f) none = none
consed (some f) (some fs) = some (f ∷ fs)

unfoldable pub resolved : List SockFilter → Option (List SockFilter)
resolved [] = some []
resolved (f ∷ fs) = consed (target f fs) (resolved fs)

-- Every label that the program names has an entry among the first `n`.
abbrev pub IsWithin : ℕ → List SockFilter → Type 0
IsWithin n [] = Unit {0}
IsWithin n (f ∷ fs) = ((is_jump f || is_label f) ≡ true → f.k < n) × IsWithin n fs

-- The function returns 1 where the reference fails, and else 0 with the reference's program.
abbrev pub Agrees : Option (List SockFilter) → Resolved → Type 0
Agrees none r = r.code ≡ pos 1
Agrees (some fs) r = (r.code ≡ pos 0) × (r.filter ≡ fs)

pub steps_to-lt-length : (id n : ℕ) (fs : List SockFilter) → steps_to id fs ≡ some n → n < length fs
unfolding steps_to
steps_to-lt-length id n [] h = ground arith
steps_to-lt-length id n (f ∷ fs) h = elim (Option-cases (steps_to id fs)) [
  | inl e ↦ ground arith
  | inr (s, e) ↦ ground (arith, steps_to-lt-length id s fs e)
]

pub consed-none : (o : Option SockFilter) → consed o none ≡ none
consed-none none = refl
consed-none (some f) = refl

-- A failure behind is a failure of the whole.
pub resolved-rev_onto :
    (before fs : List SockFilter) → resolved fs ≡ none → resolved (rev_onto before fs) ≡ none
unfolding resolved
resolved-rev_onto [] fs h = h
resolved-rev_onto (f ∷ before) fs h =
    resolved-rev_onto before (f ∷ fs) (rw h (consed-none (target f fs)))

pub length-resolved : (fs gs : List SockFilter) → resolved fs ≡ some gs → length gs ≡ length fs
unfolding resolved
length-resolved [] gs h = ground arith
length-resolved (f ∷ fs) gs h = elim (Option-cases (resolved fs)) [
  | inl e ↦ ground (arith, consed-none (target f fs))
  | inr (hs, e) ↦ ground (arith, length-resolved fs hs e)
]
