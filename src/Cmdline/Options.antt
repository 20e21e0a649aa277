-- ===== src/Cmdline/Options.antt =====
-- cmdline.c: the options that `getopt_long` looks for are those that the switch knows.
use mathlib.Core.Logic.{◌≢◌}
use nsjail.Common.{
  ℕ, zero, suc, ◌≡◌, refl, ◌∙◌, Bool, true, false, not, ◌&&◌, ◌||◌, Option, none, some, List, [],
  ◌∷◌, ltb, ◌==◌, if◌then◌else◌, arith, get_elem?, Bool-cases, inl, inr,
}
use nsjail.Os.{CString, World, exited, strtol, strtoull}
use nsjail.Os.Quiet.{is_some}
use nsjail.Cmdline.Switch.{Parse, text_option, local_option, list_option}
use nsjail.Cmdline.Values.{ull_of, long_of}
use nsjail.Cmdline.Loop.{
  limit_option, quiet_option, apply_option, takes_number, takes_long, set_number, set_long,
}
use nsjail.Cmdline.Table.{CustomOption, custom_opts, short_opts, short_of}
use nsjail.Cmdline.Taken.{
  IsTaken, IsTaken-either, limit_option-AllTaken, read-IsTaken, limited-IsTaken,
}
use nsjail.Cmdline.Known.{
  is_flag, is_text, is_persona, is_local, is_list, is_limit, flag_option-is_flag,
  text_option-is_text, persona_option-is_persona, local_option-is_local, list_option-is_list,
  limit_option-is_limit,
}

none_of : {A : Type 0} (x : Option A) (b : Bool) → is_some x ≡ b → b ≡ false → x ≡ none
none_of none b e h = refl
none_of (some a) b e h = absurd (ground arith)

-- The options that read `optarg`.
abbrev reads : ℕ → Bool
reads c =
    takes_number c
    || (takes_long c || (is_limit c || (is_text c || (is_local c || (is_list c || c == b'M')))))

quiet_option-unread :
    (c : ℕ) (a b : CString) (p : Parse)
    → is_text c ≡ false
    → is_local c ≡ false
    → is_list c ≡ false
    → (c == b'M') ≡ false
    → quiet_option (record { c = c; optarg = a }) p ≡ quiet_option (record { c = c; optarg = b }) p
unfolding quiet_option
quiet_option-unread c a b p t l s m =
    let text : (arg : CString) → text_option c arg p.conf ≡ none =
      λ arg. none_of _ _ (text_option-is_text c arg p.conf) t in
    let local : (arg : CString) → local_option c arg p ≡ none =
      λ arg. none_of _ _ (local_option-is_local c arg p) l in
    let list : (arg : CString) → list_option c arg p ≡ none =
      λ arg. none_of _ _ (list_option-is_list c arg p) s in
    ground (arith, text a, text b, local a, local b, list a, list b)

apply_option-unread :
    (c : ℕ) (a b : CString) (p : Parse)
    → reads c ≡ false
    → apply_option (record { c = c; optarg = a }) p ≡ apply_option (record { c = c; optarg = b }) p
unfolding apply_option
apply_option-unread c a b p h =
    let limit : (arg : CString) → limit_option c arg p.conf ≡ none =
      λ arg. none_of _ _ (limit_option-is_limit c arg p.conf) (ground arith) in
    let quiet =
      quiet_option-unread c a b p (ground arith) (ground arith) (ground arith) (ground arith) in
    ground (arith, limit a, limit b, quiet)

-- The options that the switch has a case for, but for the help.
abbrev knows : ℕ → Bool
knows c = is_flag c || (is_persona c || reads c)

quiet_option-is_some :
    (c : ℕ) (a : CString) (p : Parse)
    → is_flag c || (is_text c || (is_persona c || (is_local c || is_list c))) ≡ true
    → is_some (quiet_option (record { c = c; optarg = a }) p) ≡ true
unfolding quiet_option
quiet_option-is_some c a p h = ground (
  arith,
  flag_option-is_flag c p.conf,
  text_option-is_text c a p.conf,
  persona_option-is_persona c p.conf,
  local_option-is_local c a p,
  list_option-is_list c a p,
)

set_number-is_some : (c n : ℕ) (p : Parse) → is_some (set_number c n p) ≡ takes_number c
unfolding set_number
set_number-is_some c n p = ground arith

set_long-is_some : (c n : ℕ) (p : Parse) → is_some (set_long c n p) ≡ takes_long c
unfolding set_long
set_long-is_some c n p = ground arith

apply_option-IsTaken :
    (c : ℕ) (arg : CString) (p : Parse)
    → is_flag c || (is_persona c || reads c) ≡ true
    → c ≢ b'M'
    → IsTaken (apply_option (record { c = c; optarg = arg }) p)
unfolding apply_option
apply_option-IsTaken c arg p h m =
    IsTaken-either (takes_number c) _ _
      (λ y.
        read-IsTaken (strtoull arg) p (λ r. set_number c (ull_of r) p)
          (λ r. set_number-is_some c (ull_of r) p ∙ y))
      (λ n.
        IsTaken-either (takes_long c) _ _
          (λ y.
            read-IsTaken (strtol arg) p (λ r. set_long c (long_of r) p)
              (λ r. set_long-is_some c (long_of r) p ∙ y))
          (λ n'.
            limited-IsTaken p (limit_option c arg p.conf)
              (quiet_option (record { c = c; optarg = arg }) p) (limit_option-AllTaken c arg p.conf)
              (found n n')))
  where
    found :
        takes_number c ≡ false
        → takes_long c ≡ false
        → is_some (limit_option c arg p.conf)
            || is_some (quiet_option (record { c = c; optarg = arg }) p)
          ≡ true
    found n n' = elim (Bool-cases (is_limit c)) [
      | inl y ↦ ground (arith, limit_option-is_limit c arg p.conf)
      | inr l ↦ let quiet = quiet_option-is_some c arg p (ground arith) in ground (arith, quiet)
    ]

all_of : (CustomOption → Bool) → List CustomOption → Bool
all_of test [] = true
all_of test (o ∷ os) = test o && all_of test os

all_of-get_elem :
    (test : CustomOption → Bool) (os : List CustomOption) (i : ℕ) (o : CustomOption)
    → all_of test os ≡ true
    → get_elem? os i ≡ some o
    → test o ≡ true
unfolding all_of
all_of-get_elem test [] i o h e = absurd (ground arith)
all_of-get_elem test (x ∷ os) zero o h e = ground arith
all_of-get_elem test (x ∷ os) (suc i) o h e = all_of-get_elem test os i o (ground arith) e

eq_short : Option Bool → Option Bool → Bool
eq_short none none = true
eq_short (some true) (some true) = true
eq_short (some false) (some false) = true
eq_short _ _ = false

eq_short-≡ : (a b : Option Bool) → eq_short a b ≡ true → a ≡ b
unfolding eq_short
eq_short-≡ none none h = refl
eq_short-≡ (some true) (some true) h = refl
eq_short-≡ (some false) (some false) h = refl
eq_short-≡ none (some b) h = absurd (ground arith)
eq_short-≡ (some true) none h = absurd (ground arith)
eq_short-≡ (some true) (some false) h = absurd (ground arith)
eq_short-≡ (some false) none h = absurd (ground arith)
eq_short-≡ (some false) (some true) h = absurd (ground arith)

fits : CustomOption → Bool
fits o =
    (is_flag o.val || (is_persona o.val || (reads o.val || o.val == b'h')))
    && ((o.has_arg || not (reads o.val))
        && eq_short (short_of short_opts o.val) (if ltb o.val 0x80 then some o.has_arg else none))

custom_opts-fits : all_of fits custom_opts ≡ true
unfolding all_of fits custom_opts eq_short
custom_opts-fits = refl

unread_if :
    (has_arg : Bool) (c : ℕ) (arg : CString) (p : Parse)
    → has_arg || not (reads c) ≡ true
    → apply_option (record { c = c; optarg = arg }) p
      ≡ apply_option (record { c = c; optarg = if has_arg then arg else [] }) p
unread_if true c arg p h = refl
unread_if false c arg p h = apply_option-unread c arg [] p (ground arith)

-- Each option that `cmdlineParse` has `getopt_long` look for, `--help` and `--mode` apart, has its
-- own case in the switch, so it does not end in the help text; it reads its argument only if it is declared
-- with one; and it is among the short options, with an argument or without in the same way,
-- exactly if its value is below 0x80, which is when the help shows it as one.
pub custom_opts-IsTaken :
    (i : ℕ) (o : CustomOption) (arg : CString) (p : Parse) (w : World)
    → get_elem? custom_opts i ≡ some o
    → o.val ≢ b'h'
    → o.val ≢ b'M'
    → ((apply_option (record { c = o.val; optarg = arg }) p w).0 ≢ exited 0)
      × (apply_option (record { c = o.val; optarg = arg }) p
          ≡ apply_option (record { c = o.val; optarg = if o.has_arg then arg else [] }) p)
      × (short_of short_opts o.val ≡ (if ltb o.val 0x80 then some o.has_arg else none))
unfolding fits
custom_opts-IsTaken i o arg p w e h m =
    let fit = all_of-get_elem fits custom_opts i o custom_opts-fits e in
    let known : is_flag o.val || (is_persona o.val || reads o.val) ≡ true = ground arith in
    let short : eq_short (short_of short_opts o.val)
          (if ltb o.val 0x80 then some o.has_arg else none)
        ≡ true =
      ground arith in
    (
      (apply_option-IsTaken o.val arg p known m).at w,
      unread_if o.has_arg o.val arg p (ground arith),
      eq_short-≡ _ _ short,
    )
