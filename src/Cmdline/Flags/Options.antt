-- ===== src/Cmdline/Flags/Options.antt =====
-- cmdline.c: what one option makes of the Boolean settings.
use mathlib.Core.Path.{subst}
use nsjail.Common.{◌≡◌, refl, Option, none, some, ◌==◌, arith, inl, inr, Bool-cases}
use nsjail.Os.{strtoull, strtol, Action, pure, sys, ◌>>=◌}
use nsjail.Os.Ensures.{Ensures, Ensures-after, Ensures-pure, Ensures-exit, Ensures-if, Ensures-bind}
use nsjail.Conf.{NsjConf, NsMode}
use nsjail.Cmdline.Values.{ull_of, long_of}
use nsjail.Cmdline.Switch.{
  Parse, on_conf, flag_option, text_option, persona_option, local_option, list_option,
}
use nsjail.Cmdline.Loop.{
  Opt, mode_of, moded, quiet_option, apply_option, or_usage, takes_number, takes_long,
}
use nsjail.Cmdline.Flags.{Sets, SetsIn}
use nsjail.Cmdline.Flags.Cases.{
  flag_option-Sets, text_option-Sets, persona_option-Sets, local_option-Sets, list_option-Sets,
  set_number-Sets, set_long-Sets, limit_option-Sets,
}

first_some :
    {A B : Type 0} (P : B → Type 0) {r : B} (m : Option A) (f : A → B) (rest : Option B)
    → ((a : A) → m ≡ some a → P (f a))
    → (rest ≡ some r → P r)
    → (elim m [ some a ↦ some (f a) | none ↦ rest ]) ≡ some r
    → P r
first_some P (some a) f rest p q h = subst P (ground arith) (p a refl)
first_some P none f rest p q h = q h

moded-Sets : (m : Option NsMode) (p p' : Parse) → moded p m ≡ some p' → SetsIn b'M' p p'
moded-Sets none p p' h = absurd (ground arith)
moded-Sets (some mode) p p' h =
    let set : on_conf p (record p.conf { mode = mode }) ≡ p' = ground arith in
    subst (SetsIn b'M' p) set refl

quiet_option-Sets : (o : Opt) (p p' : Parse) → quiet_option o p ≡ some p' → SetsIn o.c p p'
unfolding quiet_option
quiet_option-Sets o p p' =
    let P : Parse → Type 0 = SetsIn o.c p in
    first_some P (flag_option o.c p.conf) (on_conf p) _ (flag_option-Sets o.c p.conf) (
      first_some P (text_option o.c o.optarg p.conf) (on_conf p) _
        (text_option-Sets o.c o.optarg p.conf)
        (first_some P (persona_option o.c p.conf) (on_conf p) _ (persona_option-Sets o.c p.conf) (
          first_some P (local_option o.c o.optarg p) (λ q. q) _ (local_option-Sets o.c o.optarg p)
            (first_some P (list_option o.c o.optarg p) (λ q. q) _ (list_option-Sets o.c o.optarg p)
              (λ h. elim (Bool-cases (o.c == b'M')) [
                | inl e ↦
                    let number : b'M' ≡ o.c = ground arith in
                    subst (λ c. SetsIn c p p') number
                      (moded-Sets (mode_of o.optarg) p p' (ground arith))
                | inr e ↦ absurd (ground arith)
              ])))))

or_usage-Ensures :
    (P : Parse → Type 0) (p : Parse) (m : Option Parse)
    → ((p' : Parse) → m ≡ some p' → P p')
    → Ensures P (or_usage p m)
or_usage-Ensures P p none h = Ensures-exit P 0
or_usage-Ensures P p (some p') h = Ensures-pure P (h p' refl)

limited :
    (o : Opt) (p : Parse) (m : Option (Action NsjConf))
    → ((a : Action NsjConf) → m ≡ some a → Ensures (Sets o.c p.conf) a)
    → Ensures (SetsIn o.c p) (elim m [
      | some a ↦ a >>= λ conf. pure (on_conf p conf)
      | none ↦ or_usage p (quiet_option o p)
    ])
limited o p (some a) h = Ensures-bind _ _ a _ (h a refl) (λ conf s. Ensures-pure _ s)
limited o p none h = or_usage-Ensures _ p (quiet_option o p) (quiet_option-Sets o p)

pub apply_option-Sets : (o : Opt) (p : Parse) → Ensures (SetsIn o.c p) (apply_option o p)
unfolding apply_option
apply_option-Sets o p =
    Ensures-if _ (takes_number o.c) _ _
      (Ensures-after _ (sys (strtoull o.optarg)) _
        (λ r. or_usage-Ensures _ p _ (set_number-Sets o.c (ull_of r) p)))
      (Ensures-if _ (takes_long o.c) _ _
        (Ensures-after _ (sys (strtol o.optarg)) _
          (λ r. or_usage-Ensures _ p _ (set_long-Sets o.c (long_of r) p)))
        (limited o p _ (limit_option-Sets o.c o.optarg p.conf)))
