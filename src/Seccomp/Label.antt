-- ===== src/Seccomp/Label.antt =====
-- seccomp/bpf-helper.c: the label table, `struct bpf_labels` and `seccomp_bpf_label`.
-- The list holds the first `count` entries of the array, so `count` is its length. The array is
-- zeroed where sandbox.c declares it: what lies behind `count` reads as `no_label`.
pub mod Laws
use text.Mathlib.Text.{◌==◌ as str_eq}
use nsjail.Common.{
  ℕ, ◌+◌, String, Option, none, some, List, [], ◌∷◌, length, get_or, set, ◌==◌, if◌then◌else◌,
}

pub record BpfLabel : Type 0 where
  pub label : String
  pub location : ℕ

abbrev pub BpfLabels : Type 0
BpfLabels = List BpfLabel

abbrev pub bpf_labels_max : ℕ
bpf_labels_max = 256

-- The mark of a label that is not yet placed.
abbrev pub unplaced : ℕ
unplaced = 0xffff_ffff

abbrev pub no_label : BpfLabel
no_label = record { label = ""; location = 0 }

abbrev pub location_of : BpfLabels → ℕ → ℕ
location_of ls id = (get_or ls id no_label).location

abbrev pub place : BpfLabels → ℕ → ℕ → BpfLabels
place ls id here = set ls id (record (get_or ls id no_label) { location = here })

-- The loop over the entries, which appends where it finds nothing: the number of the label, from
-- `id` on, and the table. The branch for an empty table does the same.
find_label : String → ℕ → BpfLabels → ℕ × BpfLabels
find_label label id [] = (id, record { label = label; location = unplaced } ∷ [])
find_label label id (e ∷ es) =
    let (found, es') = find_label label (id + 1) es in
    if str_eq label e.label then (id, e ∷ es) else (found, e ∷ es')

-- `none` is the exit on a full table, which comes before the search.
unfoldable pub seccomp_bpf_label : BpfLabels → String → Option (ℕ × BpfLabels)
unfolding find_label
seccomp_bpf_label labels label =
    if length labels == bpf_labels_max then none else some (find_label label 0 labels)
