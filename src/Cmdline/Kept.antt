-- ===== src/Cmdline/Kept.antt =====
-- cmdline.c: reading the command line executes no program.
use nsjail.Common.{
  ◌≡◌, ℕ, ◌%◌, ◌^◌, Bool, true, false, Option, none, some, List, [], ◌∷◌, get_or, if◌then◌else◌,
}
use nsjail.Common.Text.{bytes}
use nsjail.Os.{
  CString, Syscall, getrlimit, strtoull, Reply, fail, done, Action, pure, exit, sys, ◌>>=◌,
}
use nsjail.Os.Quiet.{
  is_execv, Quiet, Quiet-pure, Quiet-exit, Quiet-if, Quiet-bind, Quiet-sys, quiet_rules,
}
use nsjail.Conf.{NsjConf}
use nsjail.Log.Kept.{log_init_log_file-Quiet}
use nsjail.Cmdline.{init_conf, finish_parse, take_argv, cmdline_parse}
use nsjail.Cmdline.Values.{
  numeric_limit, cmdline_parse_r_limit, errno_left, eq_nocase, id_of, second_uid, second_gid,
  cmdline_parse_uid, cmdline_parse_gid, cmdline_split_str_by_colon, cmdline_is_a_number, ull_of,
}
use nsjail.Cmdline.Switch.{Parse, on_conf}
use nsjail.Cmdline.Loop.{
  Opt, or_usage, limit_option, apply_option, apply_options, takes_number, takes_long, quiet_option,
}

errno_left-Quiet : (r : Reply) → Quiet (errno_left r)
errno_left-Quiet (fail e) = Quiet-pure e
errno_left-Quiet (done n out) = search quiet_rules

numeric_limit-Quiet : (optarg : CString) (mul : ℕ) → Quiet (numeric_limit optarg mul)
unfolding numeric_limit
numeric_limit-Quiet optarg mul = search (quiet_rules, errno_left-Quiet)

pub cmdline_parse_r_limit-Quiet :
    (res : ℕ) (optarg : CString) (mul : ℕ) → Quiet (cmdline_parse_r_limit res optarg mul)
unfolding cmdline_parse_r_limit
cmdline_parse_r_limit-Quiet res optarg mul =
    Quiet-bind (sys (getrlimit res)) _ (search quiet_rules) go
  where
    go :
        (r : Reply)
        → Quiet {A = ℕ} (elim r [
          | fail e ↦ exit 1
          | done n cur ↦
              if eq_nocase optarg (bytes "max")
              then pure (get_or cur 1 0)
              else if eq_nocase optarg (bytes "def")
              then pure (get_or cur 0 0)
              else numeric_limit optarg mul
        ])
    go (fail e) = Quiet-exit 1
    go (done n cur) = search (quiet_rules, numeric_limit-Quiet)

or_usage-Quiet : (p : Parse) (found : Option Parse) → Quiet (or_usage p found)
or_usage-Quiet p none = Quiet-exit 0
or_usage-Quiet p (some p') = Quiet-pure p'

-- An option's action, if it has one.
AllQuiet : Option (Action NsjConf) → Type 0
AllQuiet none = Unit {0}
AllQuiet (some m) = Quiet m

AllQuiet-if :
    (b : Bool) (m : Action NsjConf) (rest : Option (Action NsjConf))
    → Quiet m
    → AllQuiet rest
    → AllQuiet (if b then some m else rest)
unfolding AllQuiet
AllQuiet-if true m rest q r = q
AllQuiet-if false m rest q r = r

limit_option-Quiet : (c : ℕ) (arg : CString) (conf : NsjConf) → AllQuiet (limit_option c arg conf)
unfolding limit_option AllQuiet
limit_option-Quiet c arg conf =
    search (quiet_rules, AllQuiet-if, cmdline_parse_r_limit-Quiet) depth 16

limited-Quiet :
    (o : Opt) (p : Parse) (found : Option (Action NsjConf))
    → AllQuiet found
    → Quiet (elim found [
      | some m ↦ m >>= λ conf. pure (on_conf p conf)
      | none ↦ or_usage p (quiet_option o p)
    ])
unfolding AllQuiet
limited-Quiet o p none q = or_usage-Quiet p (quiet_option o p)
limited-Quiet o p (some m) q = search quiet_rules

pub apply_option-Quiet : (o : Opt) (p : Parse) → Quiet (apply_option o p)
unfolding apply_option
apply_option-Quiet o p = Quiet-if (takes_number o.c) _ _ (search (quiet_rules, or_usage-Quiet)) (
    Quiet-if (takes_long o.c) _ _ (search (quiet_rules, or_usage-Quiet)) (
      limited-Quiet o p (limit_option o.c o.optarg p.conf)
        (limit_option-Quiet o.c o.optarg p.conf)))

pub apply_options-Quiet : (opts : List Opt) (p : Parse) → Quiet (apply_options opts p)
unfolding apply_options
apply_options-Quiet [] p = Quiet-pure p
apply_options-Quiet (o ∷ opts) p =
    Quiet-bind (apply_option o p) _ (apply_option-Quiet o p) (apply_options-Quiet opts)

id_of-Quiet :
    (lookup : Syscall) (name : CString) → is_execv lookup ≡ false → Quiet (id_of lookup name)
unfolding id_of
id_of-Quiet lookup name h = Quiet-bind (sys lookup) _ (Quiet-sys lookup h) go
  where
    go :
        (r : Reply)
        → Quiet {A = Option ℕ} (elim r [
          | done id out ↦ pure (some id)
          | fail e ↦
              if cmdline_is_a_number name
              then (sys (strtoull name) >>= λ n. pure (some (ull_of n % 2 ^ 32)))
              else pure none
        ])
    go (done id out) = Quiet-pure (some id)
    go (fail e) = search quiet_rules

second_uid-Quiet : (conf : NsjConf) (second : Option CString) → Quiet (second_uid conf second)
unfolding second_uid
second_uid-Quiet conf none = Quiet-pure (true, conf)
second_uid-Quiet conf (some second) = search (quiet_rules, id_of-Quiet, go)
  where
    go :
        (id : Option ℕ)
        → Quiet {A = Bool × NsjConf} (elim id [
          | none ↦ pure (false, conf)
          | some uid ↦ pure (true, record conf { outside_uid = uid })
        ])
    go none = Quiet-pure (false, conf)
    go (some uid) = Quiet-pure (true, record conf { outside_uid = uid })

cmdline_parse_uid-Quiet :
    (conf : NsjConf) (user : Option CString) → Quiet (cmdline_parse_uid conf user)
unfolding cmdline_parse_uid
cmdline_parse_uid-Quiet conf none = Quiet-pure (true, conf)
cmdline_parse_uid-Quiet conf (some str) = search (quiet_rules, id_of-Quiet, go)
  where
    go :
        (id : Option ℕ)
        → Quiet {A = Bool × NsjConf} (elim id [
          | none ↦ pure (false, conf)
          | some uid ↦
              second_uid (record conf { inside_uid = uid }) (cmdline_split_str_by_colon str).1
        ])
    go none = Quiet-pure (false, conf)
    go (some uid) = second_uid-Quiet _ _

second_gid-Quiet : (conf : NsjConf) (second : Option CString) → Quiet (second_gid conf second)
unfolding second_gid
second_gid-Quiet conf none = Quiet-pure (true, conf)
second_gid-Quiet conf (some second) = search (quiet_rules, id_of-Quiet, go)
  where
    go :
        (id : Option ℕ)
        → Quiet {A = Bool × NsjConf} (elim id [
          | none ↦ pure (false, conf)
          | some gid ↦ pure (true, record conf { outside_gid = gid })
        ])
    go none = Quiet-pure (false, conf)
    go (some gid) = Quiet-pure (true, record conf { outside_gid = gid })

cmdline_parse_gid-Quiet :
    (conf : NsjConf) (group : Option CString) → Quiet (cmdline_parse_gid conf group)
unfolding cmdline_parse_gid
cmdline_parse_gid-Quiet conf none = Quiet-pure (true, conf)
cmdline_parse_gid-Quiet conf (some str) = search (quiet_rules, id_of-Quiet, go)
  where
    go :
        (id : Option ℕ)
        → Quiet {A = Bool × NsjConf} (elim id [
          | none ↦ pure (false, conf)
          | some gid ↦
              second_gid (record conf { inside_gid = gid }) (cmdline_split_str_by_colon str).1
        ])
    go none = Quiet-pure (false, conf)
    go (some gid) = second_gid-Quiet _ _

pub init_conf-Quiet : Quiet init_conf
unfolding init_conf
init_conf-Quiet = search (quiet_rules, cmdline_parse_r_limit-Quiet) depth 16

take_argv-Quiet :
    (argv : List CString) (ok : Bool) (conf : NsjConf) → Quiet (take_argv argv ok conf)
take_argv-Quiet [] ok conf = search quiet_rules
take_argv-Quiet (arg ∷ args) ok conf = search quiet_rules

finish_parse-Quiet : (argv : List CString) (p : Parse) → Quiet (finish_parse argv p)
unfolding finish_parse
finish_parse-Quiet argv p =
    search
      (
        quiet_rules, log_init_log_file-Quiet, cmdline_parse_uid-Quiet, cmdline_parse_gid-Quiet,
        take_argv-Quiet,
      )
      depth 12

pub cmdline_parse-Quiet : (opts : List Opt) (argv : List CString) → Quiet (cmdline_parse opts argv)
unfolding cmdline_parse
cmdline_parse-Quiet opts argv =
    search (quiet_rules, init_conf-Quiet, apply_options-Quiet, finish_parse-Quiet)
