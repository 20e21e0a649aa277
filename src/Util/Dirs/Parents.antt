-- ===== src/Util/Dirs/Parents.antt =====
-- The directories above a path, as cutting it at its slashes gives them.
use nsjail.Common.{
  ℕ, ◌≡◌, refl, sym, ap, ◌∙◌, false, none, some, List, [], ◌∷◌, ◌==◌, if◌then◌else◌, arith, inl,
  inr, Option-cases, Bool-cases,
}
use nsjail.Os.{CString, Event, mkdirat}
use nsjail.Util.Dirs.{component, skip_slashes}

-- A path cut at its slashes.
abbrev pub split : CString → List CString
split [] = [] ∷ []
split (c ∷ s) =
    if c == b'/'
    then [] ∷ split s
    else (elim (split s) [ [] ↦ (c ∷ []) ∷ [] | piece ∷ pieces ↦ (c ∷ piece) ∷ pieces ])

-- All but the last.
abbrev pub init : List CString → List CString
init [] = []
init (p ∷ []) = []
init (p ∷ (q ∷ ps)) = p ∷ init (q ∷ ps)

abbrev pub named : List CString → List CString
named [] = []
named ([] ∷ ps) = named ps
named ((c ∷ p) ∷ ps) = (c ∷ p) ∷ named ps

-- The directories above what a path names.
abbrev pub parents : CString → List CString
parents path = named (init (split path))

-- The names that `mkdirat` was called with, the last one first.
abbrev pub made_dirs : List Event → List CString
made_dirs [] = []
made_dirs ((mkdirat dir name mode, r) ∷ log) = name ∷ made_dirs log
made_dirs (e ∷ log) = made_dirs log

split-ne-nil : (s : CString) → (p : CString) × (ps : List CString) × (split s ≡ p ∷ ps)
split-ne-nil [] = ([], [], refl)
split-ne-nil (c ∷ s) = elim (Bool-cases (c == b'/')) [
  | inl y ↦ ([], split s, rw y)
  | inr n ↦ let (p, ps, e) = split-ne-nil s in (c ∷ p, ps, rw (n, e) refl)
]

init-split : (p s : CString) → init (p ∷ split s) ≡ p ∷ init (split s)
init-split p s = let (q, ps, e) = split-ne-nil s in rw e refl

component-none : (s : CString) → component s ≡ none → split s ≡ s ∷ []
unfolding component
component-none [] h = refl
component-none (c ∷ s) h = elim (Option-cases (component s)) [
  | inl e ↦ ground (arith, component-none s e)
  | inr ((name, rest), e) ↦ absurd (ground arith)
]

component-some :
    (s name rest : CString) → component s ≡ some (name, rest) → split s ≡ name ∷ split rest
unfolding component
component-some [] name rest h = absurd (ground arith)
component-some (c ∷ s) name rest h = elim (Option-cases (component s)) [
  | inl e ↦ ground arith
  | inr ((name', rest'), e) ↦ ground (arith, component-some s name' rest' e)
]

parents-skip_slashes : (s : CString) → parents (skip_slashes s) ≡ parents s
unfolding skip_slashes
parents-skip_slashes [] = refl
parents-skip_slashes (c ∷ s) = elim (Bool-cases (c == b'/')) [
  | inl y ↦ rw (y, skip_slashes) (parents-skip_slashes s ∙ sym (ap named (init-split [] s)))
  | inr n ↦ let e : skip_slashes (c ∷ s) ≡ c ∷ s = rw (n, skip_slashes) refl in ap parents e
]

component-cons :
    (c : ℕ) (s name rest : CString)
    → (c == b'/') ≡ false
    → component (c ∷ s) ≡ some (name, rest)
    → (name' : CString) × (name ≡ c ∷ name')
unfolding component
component-cons c s name rest n h = elim (Option-cases (component s)) [
  | inl e ↦ absurd (ground arith)
  | inr ((name', rest'), e) ↦ (name', ground arith)
]

nothing : (name rest : CString) → component [] ≡ some (name, rest) → ⊥
unfolding component
nothing name rest h = ground arith

-- Behind its slashes a path begins with a name.
skip_slashes-name :
    (s name rest : CString)
    → component (skip_slashes s) ≡ some (name, rest)
    → named (name ∷ init (split rest)) ≡ name ∷ parents rest
unfolding skip_slashes
skip_slashes-name [] name rest h = absurd (nothing name rest h)
skip_slashes-name (c ∷ s) name rest h = elim (Bool-cases (c == b'/')) [
  | inl y ↦ skip_slashes-name s name rest (rw (y, skip_slashes) at h)
  | inr n ↦ let (name', e) = component-cons c s name rest n (rw (n, skip_slashes) at h) in rw e refl
]

pub parents-none : (s : CString) → component (skip_slashes s) ≡ none → parents s ≡ []
parents-none s h =
    sym (parents-skip_slashes s) ∙ ap (λ ps. named (init ps)) (component-none (skip_slashes s) h)

pub parents-some :
    (s name rest : CString)
    → component (skip_slashes s) ≡ some (name, rest)
    → parents s ≡ name ∷ parents rest
parents-some s name rest h =
    sym (parents-skip_slashes s)
    ∙ (ap (λ ps. named (init ps)) (component-some (skip_slashes s) name rest h)
        ∙ (ap named (init-split name rest) ∙ skip_slashes-name s name rest h))
