-- ===== src/Cmdline/Enforced/Steps.antt =====
-- cmdline.c: what one option leaves of a limit.
use mathlib.Core.Path.{subst}
use nsjail.Common.{
  ℕ, ◌+◌, ◌≡◌, ◌≢◌, refl, sym, ap, ◌∙◌, Bool, true, false, Option, none, some, get_or, ◌==◌,
  if◌then◌else◌, arith, inl, inr, Bool-cases,
}
use nsjail.Os.{CString, Kernel, Action, value, pure, sys, strtoull, strtol, ◌>>=◌}
use nsjail.Os.Ensures.{Ensures, Ensures-pure, Ensures-exit, Ensures-if, Ensures-after, Ensures-bind}
use nsjail.Os.Under.{Under}
use nsjail.Conf.{NsjConf}
use nsjail.Cmdline.Values.{ull_of, long_of}
use nsjail.Cmdline.Switch.{Parse, on_conf}
use nsjail.Cmdline.Table.{custom_opts}
use nsjail.Cmdline.Loop.{
  Opt, or_usage, limit_option, apply_option, takes_number, takes_long, set_number, set_long,
  quiet_option,
}
use nsjail.Cmdline.Enforced.{
  Limit, as_, core, cpu, fsize, nofile, nproc, stack, name_of, val_of, limit_opt, limits, index,
  setting, put, setting-put, setting-put_ne, val_of-index, reading, apply_option-limit_opt,
  after_limit, IsGiven, chosen,
}
use nsjail.Cmdline.Enforced.Settings.{
  Holds, just, IsKept, quiet_option-IsKept, set_number-IsKept, set_long-IsKept,
}

-- Which of the options --rlimit_* was found.
data Found (c : ℕ) (arg : CString) (conf : NsjConf) : Option (Action NsjConf) → Type 0 where
  none_found : Found c arg conf none
  found :
      (l : Limit)
      → c ≡ 0x201 + index l
      → Found c arg conf (some (reading l arg >>= λ n. pure (put l conf n)))

module _ (c : ℕ) (arg : CString) (conf : NsjConf) where
  Found-if :
      (b : Bool) (l : Limit) (rest : Option (Action NsjConf))
      → (b ≡ true → c ≡ 0x201 + index l)
      → Found c arg conf rest
      → Found c arg conf (if b then some (reading l arg >>= λ n. pure (put l conf n)) else rest)
  Found-if true l rest e f = found l (e refl)
  Found-if false l rest e f = f

  limit_option-Found : Found c arg conf (limit_option c arg conf)
  unfolding limit_option put
  limit_option-Found =
      Found-if (c == 0x201) as_ _ (λ e. ground arith)
        (Found-if (c == 0x202) core _ (λ e. ground arith)
          (Found-if (c == 0x203) cpu _ (λ e. ground arith)
            (Found-if (c == 0x204) fsize _ (λ e. ground arith)
              (Found-if (c == 0x205) nofile _ (λ e. ground arith)
                (Found-if (c == 0x206) nproc _ (λ e. ground arith)
                  (Found-if (c == 0x207) stack _ (λ e. ground arith) none_found))))))

module _ (l : Limit) (p : Parse) where
  -- The limit is as it was.
  abbrev Stays : Parse → Type 0
  Stays p' = setting l p'.conf ≡ setting l p.conf

  or_usage-Stays :
      (found : Option Parse)
      → Holds (IsKept (limits p.conf)) found
      → Ensures Stays (or_usage p found)
  or_usage-Stays none h = Ensures-exit Stays 0
  or_usage-Stays (some p') (just k) =
      Ensures-pure Stays {a = p'} (ap (λ ns. get_or ns (index l) 0) k)

  Found-Stays :
      (o : Opt) (x : Option (Action NsjConf)) (rest : Option Parse)
      → (o.c == val_of (name_of l) custom_opts) ≡ false
      → Found o.c o.optarg p.conf x
      → Holds (IsKept (limits p.conf)) rest
      → Ensures Stays
          (elim x [ some m ↦ m >>= λ conf. pure (on_conf p conf) | none ↦ or_usage p rest ])
  Found-Stays o none rest other none_found h = or_usage-Stays rest h
  Found-Stays o (some m) rest other (found l' e) h =
      let ne : index l' ≢ index l = λ same. ground (arith, val_of-index l) in
      Ensures-bind Stays (λ conf. setting l conf ≡ setting l p.conf) m _
        (Ensures-after (λ conf. setting l conf ≡ setting l p.conf) (reading l' o.optarg) _
          (λ n.
            Ensures-pure (λ conf. setting l conf ≡ setting l p.conf) {a = put l' p.conf n}
              (setting-put_ne l l' p.conf n ne)))
        (λ conf k. Ensures-pure Stays {a = on_conf p conf} k)

  apply_option-Stays :
      (o : Opt) → (o.c == val_of (name_of l) custom_opts) ≡ false → Ensures Stays (apply_option o p)
  unfolding apply_option
  apply_option-Stays o other =
      let ns = limits p.conf in
      Ensures-if Stays (takes_number o.c) _ _
        (Ensures-after Stays (sys (strtoull o.optarg)) _ (λ r.
          or_usage-Stays (set_number o.c (ull_of r) p)
            (set_number-IsKept ns o.c (ull_of r) p refl)))
        (Ensures-if Stays (takes_long o.c) _ _
          (Ensures-after Stays (sys (strtol o.optarg)) _ (λ r.
            or_usage-Stays (set_long o.c (long_of r) p)
              (set_long-IsKept ns o.c (long_of r) p refl)))
          (Found-Stays o (limit_option o.c o.optarg p.conf) (quiet_option o p) other
            (limit_option-Found o.c o.optarg p.conf) (quiet_option-IsKept ns o p refl)))

-- The limit of a configuration is the one that these options give it.
abbrev pub Sets : Kernel → Limit → Option CString → NsjConf → Type 0
Sets k l given conf = IsGiven k l given (setting l conf)

apply_option-set :
    (k : Kernel) (l : Limit) (arg : CString) (p : Parse)
    → Under k (λ p'. Sets k l (some arg) p'.conf) (apply_option (limit_opt l arg) p)
apply_option-set k l arg p = record {
  at = λ w e p' h.
      let h' : ((((reading l arg) >>= λ n. pure (put l p.conf n)) >>= λ conf. pure (on_conf p conf))
            w).0
          ≡ value p' =
        sym (ap (λ m. (m w).0) (apply_option-limit_opt l arg p)) ∙ h in
      let (n, read, same) = after_limit (reading l arg) (put l p.conf) p p' w h' in
      let whole : setting l p'.conf ≡ n = ap (setting l) (sym same) ∙ setting-put l p.conf n in
      record { world = w; kernel = e; read = read ∙ ap value (sym whole) };
}

pub apply_option-Sets :
    (k : Kernel) (l : Limit) (o : Opt) (before : Option CString) (p : Parse)
    → Sets k l before p.conf
    → Under k (λ p'. Sets k l (chosen l o before) p'.conf) (apply_option o p)
apply_option-Sets k l o before p s = elim (Bool-cases (o.c == val_of (name_of l) custom_opts)) [
  | inl y ↦
      let same : o.c ≡ val_of (name_of l) custom_opts = ground arith in
      let opt : limit_opt l o.optarg ≡ o =
        ap (λ c. record { c = c; optarg = o.optarg }) (sym same) in
      rw y (
        subst (λ q. Under k (λ p'. Sets k l (some o.optarg) p'.conf) (apply_option q p)) opt
          (apply_option-set k l o.optarg p))
  | inr n ↦ rw n (record {
    at = λ w e p' h.
        subst (λ m. IsGiven k l before m) (sym ((apply_option-Stays l p o n).at w p' h)) s;
  })
]
