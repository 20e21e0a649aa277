-- ===== src/Cmdline/Mapping.antt =====
-- cmdline.c: texts with colons, `inside:outside:count` and `source:dest`.
use nsjail.Common.{◌≡◌, refl, Bool, false, ◌||◌, none, some, [], ◌∷◌, ◌++◌, ◌==◌, arith}
use nsjail.Os.{CString}
use nsjail.Conf.{Mapping}
use nsjail.Cmdline.Values.{cmdline_split_str_by_colon}
use nsjail.Cmdline.Switch.{mapping_of}

abbrev pub has_colon : CString → Bool
has_colon [] = false
has_colon (c ∷ s) = c == b':' || has_colon s

cmdline_split_str_by_colon-append :
    (a b : CString) → has_colon a ≡ false → cmdline_split_str_by_colon (a ++ b':' ∷ b) ≡ (a, some b)
unfolding cmdline_split_str_by_colon
cmdline_split_str_by_colon-append [] b h = refl
cmdline_split_str_by_colon-append (c ∷ a) b h =
    ground (arith, cmdline_split_str_by_colon-append a b)

cmdline_split_str_by_colon-whole :
    (a : CString) → has_colon a ≡ false → cmdline_split_str_by_colon a ≡ (a, none)
unfolding cmdline_split_str_by_colon
cmdline_split_str_by_colon-whole [] h = refl
cmdline_split_str_by_colon-whole (c ∷ a) h = ground (arith, cmdline_split_str_by_colon-whole a)

-- The form that the help text asks for.
abbrev pub print_mapping : Mapping → CString
print_mapping m = m.inside_id ++ b':' ∷ (m.outside_id ++ b':' ∷ m.count)

-- A mapping that is written as `inside:outside:count`, with no colon in the first two, is read as
-- it was meant.
pub mapping_of-print_mapping :
    (m : Mapping)
    → has_colon m.inside_id ≡ false
    → has_colon m.outside_id ≡ false
    → mapping_of (print_mapping m) ≡ m
unfolding mapping_of
mapping_of-print_mapping m i o = ground (
  arith,
  cmdline_split_str_by_colon-append m.inside_id (m.outside_id ++ b':' ∷ m.count) i,
  cmdline_split_str_by_colon-append m.outside_id m.count o,
)

-- Of a mapping without a count, `inside:outside`, the outside id is taken for the count too; of a
-- text without a colon, the whole is taken for all three.
pub mapping_of_short :
    (a b : CString)
    → has_colon a ≡ false
    → has_colon b ≡ false
    → (mapping_of (a ++ b':' ∷ b) ≡ record { inside_id = a; outside_id = b; count = b })
      × (mapping_of a ≡ record { inside_id = a; outside_id = a; count = a })
unfolding mapping_of
mapping_of_short a b h k = (
  ground (arith, cmdline_split_str_by_colon-append a b h, cmdline_split_str_by_colon-whole b k),
  ground (arith, cmdline_split_str_by_colon-whole a h),
)
