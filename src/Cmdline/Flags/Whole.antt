-- ===== src/Cmdline/Flags/Whole.antt =====
-- cmdline.c: which of the Boolean settings the whole command line departs from the default in.
use nsjail.Common.{
  ℕ, ◌≡◌, refl, ap, ◌∙◌, Bool, true, false, not, ◌||◌, Option, none, some, List, [], ◌∷◌, ◌==◌,
}
use nsjail.Os.{CString, getpwnam, getgrnam, getuid, getgid, result_of, World, value, sys, ◌>>=◌}
use nsjail.Os.Ensures.{
  Ensures, Ensures-after, Ensures-pure, Ensures-exit, Ensures-if, Ensures-bind, Ensures-map,
  Ensures-option,
}
use nsjail.Conf.{NsjConf}
use nsjail.Log.{log_init_log_file}
use nsjail.Common.Text.{bytes}
use nsjail.Cmdline.{
  defaults, start_of, init_conf, cmdline_parse, finish_parse, add_mounts, take_argv,
}
use nsjail.Cmdline.Values.{
  cmdline_parse_r_limit, cmdline_parse_uid, cmdline_parse_gid, id_of, cmdline_split_str_by_colon,
  second_uid, second_gid,
}
use nsjail.Cmdline.Switch.{Parse}
use nsjail.Cmdline.Loop.{Opt, apply_option, apply_options}
use nsjail.Cmdline.Flags.{Given, given, each_flag, occurs, both, SetsIn}
use nsjail.Cmdline.Flags.Options.{apply_option-Sets}

or_swap : (a b c : Bool) → a || (b || c) ≡ (b || a) || c
or_swap true true c = refl
or_swap true false c = refl
or_swap false true c = refl
or_swap false false c = refl

or_false : (a : Bool) → a || false ≡ a
or_false true = refl
or_false false = refl

both-both :
    (a b : ℕ → Bool) (g : Given)
    → both (each_flag a) (both (each_flag b) g) ≡ both (each_flag (λ k. b k || a k)) g
both-both a b g = simp or_swap

both-none : (a : ℕ → Bool) → both (each_flag a) (each_flag (λ k. false)) ≡ each_flag a
both-none a = simp or_false

apply_options-Ensures :
    (opts : List Opt) (p : Parse)
    → Ensures
        (λ p'. given p'.conf ≡ both (each_flag (occurs opts)) (given p.conf))
        (apply_options opts p)
unfolding apply_options
apply_options-Ensures [] p = Ensures-pure _ refl
apply_options-Ensures (o ∷ opts) p =
    let all = both (each_flag (occurs (o ∷ opts))) (given p.conf) in
    Ensures-bind (λ p'. given p'.conf ≡ all) (SetsIn o.c p) (apply_option o p) (apply_options opts)
      (apply_option-Sets o p)
      (λ q s.
        Ensures-map _ _
          (λ p' e.
            e
            ∙ ap (both (each_flag (occurs opts))) s
            ∙ both-both (occurs opts) (λ k. o.c == k) (given p.conf))
          _ (apply_options-Ensures opts q))

-- What keeps the settings.
abbrev KeepsFlags : NsjConf → Bool × NsjConf → Type 0
KeepsFlags conf r = given r.1 ≡ given conf

second_uid-Keeps :
    (conf : NsjConf) (second : Option CString) → Ensures (KeepsFlags conf) (second_uid conf second)
unfolding second_uid
second_uid-Keeps conf none = Ensures-pure (KeepsFlags conf) {a = (true, conf)} refl
second_uid-Keeps conf (some second) =
    Ensures-after (KeepsFlags conf) (id_of (getpwnam second) second) _ (λ id.
      Ensures-option (KeepsFlags conf) id _ _
        (Ensures-pure (KeepsFlags conf) {a = (false, conf)} refl)
        (λ uid.
          Ensures-pure (KeepsFlags conf) {a = (true, record conf { outside_uid = uid })} refl))

cmdline_parse_uid-Keeps :
    (conf : NsjConf) (str : Option CString) → Ensures (KeepsFlags conf) (cmdline_parse_uid conf str)
unfolding cmdline_parse_uid
cmdline_parse_uid-Keeps conf none = Ensures-pure (KeepsFlags conf) {a = (true, conf)} refl
cmdline_parse_uid-Keeps conf (some str) =
    let (first, second) = cmdline_split_str_by_colon str in
    Ensures-after (KeepsFlags conf) (id_of (getpwnam first) first) _ (λ id.
      Ensures-option (KeepsFlags conf) id _ _
        (Ensures-pure (KeepsFlags conf) {a = (false, conf)} refl)
        (λ uid. second_uid-Keeps (record conf { inside_uid = uid }) second))

second_gid-Keeps :
    (conf : NsjConf) (second : Option CString) → Ensures (KeepsFlags conf) (second_gid conf second)
unfolding second_gid
second_gid-Keeps conf none = Ensures-pure (KeepsFlags conf) {a = (true, conf)} refl
second_gid-Keeps conf (some second) =
    Ensures-after (KeepsFlags conf) (id_of (getgrnam second) second) _ (λ id.
      Ensures-option (KeepsFlags conf) id _ _
        (Ensures-pure (KeepsFlags conf) {a = (false, conf)} refl)
        (λ gid.
          Ensures-pure (KeepsFlags conf) {a = (true, record conf { outside_gid = gid })} refl))

cmdline_parse_gid-Keeps :
    (conf : NsjConf) (str : Option CString) → Ensures (KeepsFlags conf) (cmdline_parse_gid conf str)
unfolding cmdline_parse_gid
cmdline_parse_gid-Keeps conf none = Ensures-pure (KeepsFlags conf) {a = (true, conf)} refl
cmdline_parse_gid-Keeps conf (some str) =
    let (first, second) = cmdline_split_str_by_colon str in
    Ensures-after (KeepsFlags conf) (id_of (getgrnam first) first) _ (λ id.
      Ensures-option (KeepsFlags conf) id _ _
        (Ensures-pure (KeepsFlags conf) {a = (false, conf)} refl)
        (λ gid. second_gid-Keeps (record conf { inside_gid = gid }) second))

take_argv-Keeps :
    (argv : List CString) (ok : Bool) (conf : NsjConf)
    → Ensures (KeepsFlags conf) (take_argv argv ok conf)
take_argv-Keeps argv false conf = Ensures-pure (KeepsFlags conf) {a = (false, conf)} refl
take_argv-Keeps [] true conf = Ensures-exit _ 0
take_argv-Keeps (arg ∷ args) true conf =
    Ensures-pure (KeepsFlags conf) {a = (true, record conf { argv = arg ∷ args })} refl

finish_parse-Keeps :
    (argv : List CString) (p : Parse) → Ensures (KeepsFlags p.conf) (finish_parse argv p)
unfolding finish_parse add_mounts
finish_parse-Keeps argv p =
    let conf = add_mounts p.conf in
    let K = KeepsFlags p.conf in
    Ensures-after K (log_init_log_file conf p.logfile conf.verbose) _ (λ l.
      Ensures-if K (not l.0) _ _ (Ensures-pure K {a = (false, conf)} refl) (
        Ensures-bind K (KeepsFlags conf) (cmdline_parse_uid conf p.user) _
          (cmdline_parse_uid-Keeps conf p.user)
          (λ u k. Ensures-if K (not u.0) _ _ (Ensures-pure K {a = u} k) (
            Ensures-bind K (KeepsFlags u.1) (cmdline_parse_gid u.1 p.group) _
              (cmdline_parse_gid-Keeps u.1 p.group)
              (λ g k'. Ensures-map _ _ (λ r e. e ∙ k' ∙ k) _ (take_argv-Keeps argv g.0 g.1))))))

abbrev Unset : Parse → Type 0
Unset p = given p.conf ≡ each_flag (λ k. false)

init_conf-Unset : Ensures Unset init_conf
unfolding init_conf
init_conf-Unset = Ensures-after Unset (cmdline_parse_r_limit 6 (bytes "def") 1) _ (λ nproc.
    Ensures-after Unset (cmdline_parse_r_limit 3 (bytes "def") 1) _ (λ stack.
      Ensures-after Unset (sys getuid) _ (λ uid. Ensures-after Unset (sys getgid) _ (λ gid.
        Ensures-after Unset (sys getuid) _ (λ uid'. Ensures-after Unset (sys getgid) _ (λ gid'.
          Ensures-pure Unset
            {a = start_of (
              defaults nproc stack (result_of uid) (result_of gid) (result_of uid')
                (result_of gid'))}
            refl))))))

abbrev GivenBy : List Opt → NsjConf → Type 0
GivenBy opts conf = given conf ≡ each_flag (occurs opts)

loop-Ensures :
    (opts : List Opt) → Ensures (λ p. GivenBy opts p.conf) (init_conf >>= apply_options opts)
loop-Ensures opts =
    Ensures-bind (λ p. GivenBy opts p.conf) Unset init_conf (apply_options opts) init_conf-Unset
      (λ p e.
        Ensures-map _ _
          (λ p' e'. e' ∙ ap (both (each_flag (occurs opts))) e ∙ both-none (occurs opts)) _
          (apply_options-Ensures opts p))

-- If `cmdlineParse` returns, each of the Boolean settings is off its default exactly if its option
-- was given, wherever that stands and whatever else is given.
pub cmdline_parse-given :
    (opts : List Opt) (argv : List CString) (w : World) (ok : Bool) (conf : NsjConf)
    → (cmdline_parse opts argv w).0 ≡ value (ok, conf)
    → given conf ≡ each_flag (occurs opts)
unfolding cmdline_parse
cmdline_parse-given opts argv w ok conf =
    (Ensures-bind (λ r. GivenBy opts r.1) (λ p. GivenBy opts p.conf)
        (init_conf >>= apply_options opts) (finish_parse argv) (loop-Ensures opts)
        (λ p e. Ensures-map _ _ (λ r e'. e' ∙ e) _ (finish_parse-Keeps argv p))).at
      w (ok, conf)
