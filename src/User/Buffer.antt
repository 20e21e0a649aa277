-- ===== src/User/Buffer.antt =====
-- user.c: which command the helpers' buffer of 1024 bytes holds in the end.
use mathlib.Core.List.{append-nil, append_assoc}
use nsjail.Common.{
  ℕ, zero, suc, ◌+◌, ◌-◌, ◌≤◌, ◌<◌, ◌≡◌, refl, sym, ap, ◌∙◌, true, false, Option, none, some, List,
  [], ◌∷◌, ◌++◌, length, length-append, take, take-all, ltb, ◌==◌, ◌||◌, if◌then◌else◌, arith, inl,
  inr, Bool-cases,
}
use nsjail.Common.Int.{ℤ}
use nsjail.Common.Text.{bytes, print_ℕ}
use nsjail.Os.{CString}
use nsjail.Conf.{Mapping}
use nsjail.User.{Command, append_text, mapping_text, try, append_mappings, map_command, ulong_of}

-- The texts of the mappings, in order.
abbrev pub mappings_text : List Mapping → CString
mappings_text [] = []
mappings_text (p ∷ ps) = mapping_text p ++ mappings_text ps

-- The command without the buffer's bound.
abbrev pub whole_command : CString → ℤ → ℕ → ℕ → List Mapping → CString
whole_command helper pid inside outside ps =
    (helper
      ++ (b' '
          ∷ (print_ℕ (ulong_of pid)
              ++ (b' ' ∷ (print_ℕ inside ++ (b' ' ∷ (print_ℕ outside ++ bytes " 1")))))))
    ++ mappings_text ps

-- A text in a buffer of `size` bytes: none that is longer, and of any other all that fits in front
-- of the final zero.
abbrev pub fitted : ℕ → CString → Option Command
fitted size t =
    if ltb size (length t)
    then none
    else some (record { text = take (size - 1) t; len = size - length t })

take-append : (n m : ℕ) (xs ys : CString) → length xs + m ≡ n → take n (xs ++ ys) ≡ xs ++ take m ys
take-append n m [] ys h = ap (λ k. take k ys) (omega arith)
take-append zero m (x ∷ xs) ys h = absurd (omega arith)
take-append (suc n) m (x ∷ xs) ys h = ap (λ zs. x ∷ zs) (take-append n m xs ys (omega arith))

module _ (size : ℕ) where
  -- The buffer is filled as far as `len` says, and has room.
  abbrev IsOpen : CString → ℕ → Type 0
  IsOpen text len = (length text + len ≡ size) × (0 < len)

  fitted-long : (t : CString) → size < length t → fitted size t ≡ none
  fitted-long t h = let b : ltb size (length t) ≡ true = ground arith in rw b refl

  -- A text that fits, and what the buffer then holds of it.
  fitted-short :
      (t shown : CString) (len : ℕ)
      → length t + len ≡ size
      → take (size - 1) t ≡ shown
      → fitted size t ≡ some (record { text = shown; len = len })
  fitted-short t shown len h e =
      let b : ltb size (length t) ≡ false = ground arith in
      let l : size - length t ≡ len = omega arith in rw (b, l, e) refl

  append_text-long :
      (text t : CString) (len : ℕ)
      → len < length t
      → append_text (record { text = text; len = len }) t ≡ none
  unfolding append_text
  append_text-long text t len h =
      let b : (length t == 0 || ltb len (length t)) ≡ true = ground arith in rw b refl

  append_text-short :
      (text t : CString) (len : ℕ)
      → 0 < length t
      → length t ≤ len
      → append_text (record { text = text; len = len }) t
        ≡ some (record { text = text ++ take (len - 1) t; len = len - length t })
  unfolding append_text
  append_text-short text t len n h =
      let b : (length t == 0 || ltb len (length t)) ≡ false = ground arith in rw b refl

  append_mappings_full :
      (text : CString) (p : Mapping) (ps : List Mapping)
      → append_mappings (p ∷ ps) (record { text = text; len = 0 }) ≡ none
  unfolding append_mappings
  append_mappings_full text p ps = rw (append_text-long text (mapping_text p) 0 (omega arith)) refl

  -- A text that fills the buffer to the last byte must be the last one.
  append_full :
      (text t : CString) (len : ℕ) (ps : List Mapping)
      → 0 < length t
      → length text + len ≡ size
      → length t ≡ len
      → append_mappings ps (record { text = text ++ take (len - 1) t; len = 0 })
        ≡ fitted size (text ++ (t ++ mappings_text ps))
  unfolding append_mappings
  append_full text t len [] n h e = sym (
      fitted-short (text ++ (t ++ [])) (text ++ take (len - 1) t) 0
        (rw (append-nil t, length-append text t) (omega arith))
        (rw (append-nil t) (take-append (size - 1) (len - 1) text t (omega arith))))
  append_full text t len (p ∷ ps) n h e =
      append_mappings_full (text ++ take (len - 1) t) p ps
      ∙ sym (
          fitted-long (text ++ (t ++ mappings_text (p ∷ ps))) (
            rw
              (
                length-append text (t ++ mappings_text (p ∷ ps)),
                length-append t (mappings_text (p ∷ ps)),
              )
              (omega arith)))

  module _ (t : CString) (ps : List Mapping)
      (ih : (text : CString) (len : ℕ)
        → IsOpen text len
        → append_mappings ps (record { text = text; len = len })
          ≡ fitted size (text ++ mappings_text ps)) where
    append_text_lem :
        (text : CString) (len : ℕ)
        → 0 < length t
        → IsOpen text len
        → try (append_text (record { text = text; len = len }) t) (append_mappings ps)
          ≡ fitted size (text ++ (t ++ mappings_text ps))
    append_text_lem text len n h = elim (Bool-cases (ltb len (length t))) [
      | inl long ↦ rw (append_text-long text t len (ground arith)) (
          sym (
            fitted-long (text ++ (t ++ mappings_text ps)) (
              rw (length-append text (t ++ mappings_text ps), length-append t (mappings_text ps))
                (ground arith))))
      | inr fits ↦
          rw (append_text-short text t len n (ground arith)) (elim (Bool-cases (length t == len)) [
            | inl full ↦
                let e : length t ≡ len = ground arith in
                let z : len - length t ≡ 0 = omega arith in rw z (append_full text t len ps n h.0 e)
            | inr room ↦
                let l : length t < len = ground arith in
                rw (take-all (len - 1) t (omega arith)) (
                  ih (text ++ t) (len - length t)
                    (rw (length-append text t) (omega arith), omega arith)
                  ∙ ap (fitted size) (append_assoc text t (mappings_text ps)))
          ])
    ]

  append_mappings_lem :
      (ps : List Mapping) (text : CString) (len : ℕ)
      → IsOpen text len
      → append_mappings ps (record { text = text; len = len })
        ≡ fitted size (text ++ mappings_text ps)
  unfolding append_mappings
  append_mappings_lem [] text len h = sym (
      fitted-short (text ++ []) text len (rw (append-nil text) h.0)
        (rw (append-nil text) (take-all (size - 1) text (omega arith))))
  append_mappings_lem (p ∷ ps) text len h =
      append_text_lem (mapping_text p) ps (append_mappings_lem ps) text len (omega arith) h

-- The command that is built for `newuidmap` or `newgidmap` is the whole text if that has less than
-- 1024 bytes, and none if it has more; of exactly 1024 bytes the last one is lost.
pub map_command-fitted :
    (helper : CString) (pid : ℤ) (inside outside : ℕ) (ps : List Mapping)
    → map_command helper pid inside outside ps
      ≡ fitted 1024 (whole_command helper pid inside outside ps)
unfolding map_command
map_command-fitted helper pid inside outside ps =
    append_text_lem 1024 first ps (append_mappings_lem 1024 ps) [] 1024 nonempty
      (omega arith, omega arith)
  where
    first : CString
    first =
        helper
        ++ (b' '
            ∷ (print_ℕ (ulong_of pid)
                ++ (b' ' ∷ (print_ℕ inside ++ (b' ' ∷ (print_ℕ outside ++ bytes " 1"))))))

    nonempty : 0 < length first
    nonempty =
        rw
          (length-append helper (
            b' '
            ∷ (print_ℕ (ulong_of pid)
                ++ (b' ' ∷ (print_ℕ inside ++ (b' ' ∷ (print_ℕ outside ++ bytes " 1")))))))
          (omega arith)
