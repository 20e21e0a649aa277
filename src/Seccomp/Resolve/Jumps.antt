-- ===== src/Seccomp/Resolve/Jumps.antt =====
-- Where the jumps of a resolved program land.
use mathlib.Core.Path.{subst}
use nsjail.Common.{
  sym, ℕ, zero, suc, ◌+◌, ◌<◌, ◌≤◌, ◌≡◌, refl, true, Option, none, some, List, [], ◌∷◌, length,
  get_elem?, arith, inl, inr, Option-cases, ◌⊎◌,
}
use nsjail.Common.Int.{pos}
use nsjail.Seccomp.Insn.{SockFilter}
use nsjail.Seccomp.Label.{BpfLabels}
use nsjail.Seccomp.Resolve.{is_jump, is_label, bpf_resolve_jumps}
use nsjail.Seccomp.Resolve.Reference.{steps_to, target, consed, resolved, IsWithin, Agrees}
use nsjail.Seccomp.Resolve.Sound.{IsUnplaced, bpf_resolve_jumps-Agrees}

-- The jump with number `i` skips `k` instructions and so lands on its label.
pub record Lands (filter out : List SockFilter) (i : ℕ) (f : SockFilter) : Type 0 where
  pub k : ℕ
  pub spot : ℕ
  pub mark : SockFilter
  pub distance : spot ≡ i + 1 + k
  pub written : get_elem? out i ≡ some (record f { k = k; jt = 0; jf = 0 })
  pub reached : get_elem? filter spot ≡ some mark
  pub marked : is_label mark ≡ true
  pub named : mark.k ≡ f.k

steps_to-get_elem? :
    (id n : ℕ) (fs : List SockFilter)
    → steps_to id fs ≡ some n
    → (g : SockFilter) × (get_elem? fs n ≡ some g) × (is_label g ≡ true) × (g.k ≡ id)
unfolding steps_to
steps_to-get_elem? id n [] h = absurd (ground arith)
steps_to-get_elem? id zero (f ∷ fs) h = elim (Option-cases (steps_to id fs)) [
  | inl e ↦ (f, refl, ground arith, ground arith)
  | inr (s, e) ↦ (f, refl, ground arith, ground arith)
]
steps_to-get_elem? id (suc n) (f ∷ fs) h =
    steps_to-get_elem? id n fs
      (elim (Option-cases (steps_to id fs)) [ inl e ↦ ground arith | inr (s, e) ↦ ground arith ])

Lands-suc :
    {filter out : List SockFilter} {i : ℕ} {f : SockFilter} (g h : SockFilter)
    → Lands filter out i f
    → Lands (g ∷ filter) (h ∷ out) (suc i) f
Lands-suc g h l = record {
  k = l.k;
  spot = suc l.spot;
  mark = l.mark;
  distance = omega (arith, l.distance);
  written = l.written;
  reached = l.reached;
  marked = l.marked;
  named = l.named;
}

consed-eq-some :
    (o : Option SockFilter) (r : Option (List SockFilter)) {gs : List SockFilter}
    → consed o r ≡ some gs
    → (h : SockFilter) × (hs : List SockFilter) × (o ≡ some h) × (r ≡ some hs) × (gs ≡ h ∷ hs)
consed-eq-some none r e = absurd (ground arith)
consed-eq-some (some h) none e = absurd (ground arith)
consed-eq-some (some h) (some hs) e = (h, hs, refl, refl, ground arith)

target-Lands :
    (f h : SockFilter) (fs hs : List SockFilter)
    → is_jump f ≡ true
    → target f fs ≡ some h
    → Lands (f ∷ fs) (h ∷ hs) 0 f
unfolding target
target-Lands f h fs hs j t = elim (Option-cases (steps_to f.k fs)) [
  | inl e ↦ absurd (ground arith)
  | inr (s, e) ↦
      let (g, there, is, named) = steps_to-get_elem? f.k s fs e in
      record {
        k = s;
        spot = suc s;
        mark = g;
        distance = omega arith;
        written = ground arith;
        reached = there;
        marked = is;
        named = named;
      }
]

resolved-Lands :
    (fs gs : List SockFilter) (i : ℕ) (f : SockFilter)
    → resolved fs ≡ some gs
    → get_elem? fs i ≡ some f
    → is_jump f ≡ true
    → Lands fs gs i f
unfolding resolved
resolved-Lands [] gs i f r e j = absurd (ground arith)
resolved-Lands (g ∷ fs) gs zero f r e j =
    let (h, hs, t, q, same) = consed-eq-some (target g fs) (resolved fs) r in
    let here : g ≡ f = cc in
    subst (λ x. Lands (x ∷ fs) gs 0 f) (sym here)
      (subst (λ out. Lands (f ∷ fs) out 0 f) (sym same)
        (target-Lands f h fs hs j (subst (λ x. target x fs ≡ some h) here t)))
resolved-Lands (g ∷ fs) gs (suc i) f r e j =
    let (h, hs, t, q, same) = consed-eq-some (target g fs) (resolved fs) r in
    subst (λ out. Lands (g ∷ fs) out (suc i) f) (sym same)
      (Lands-suc g h (resolved-Lands fs hs i f q e j))

-- If `bpf_resolve_jumps` returns 0, on a program of 1 to 256 instructions whose labels all have
-- entries in the table, none of them placed, then every jump has become an unconditional jump
-- forward over `k` instructions that lands on a label of the same number.
pub bpf_resolve_jumps-Lands :
    (ls : BpfLabels) (filter : List SockFilter) (i : ℕ) (f : SockFilter)
    → 0 < length filter
    → length filter ≤ 256
    → IsUnplaced ls
    → IsWithin (length ls) filter
    → (bpf_resolve_jumps ls filter).code ≡ pos 0
    → get_elem? filter i ≡ some f
    → is_jump f ≡ true
    → Lands filter (bpf_resolve_jumps ls filter).filter i f
bpf_resolve_jumps-Lands ls filter i f some_left fits fresh within ok e j =
    by_reference (Option-cases (resolved filter))
  where
    agrees : Agrees (resolved filter) (bpf_resolve_jumps ls filter)
    agrees = bpf_resolve_jumps-Agrees ls filter some_left fits fresh within

    by_reference :
        (resolved filter ≡ none) ⊎ ((gs : List SockFilter) × (resolved filter ≡ some gs))
        → Lands filter (bpf_resolve_jumps ls filter).filter i f
    by_reference (inl q) = let a : (bpf_resolve_jumps ls filter).code ≡ pos 1 = rw q at agrees in cc
    by_reference (inr (gs, q)) =
        let a : ((bpf_resolve_jumps ls filter).code ≡ pos 0)
            × ((bpf_resolve_jumps ls filter).filter ≡ gs) =
          rw q at agrees in
        subst (λ out. Lands filter out i f) (sym a.1) (resolved-Lands filter gs i f q e j)
