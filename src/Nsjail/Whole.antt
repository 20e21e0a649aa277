-- ===== src/Nsjail/Whole.antt =====
-- nsjail.c: the whole program, from its command line to the programs that it executes.
mod Tests
use nsjail.Common.{
  ℕ, ◌≡◌, refl, ap, ◌∙◌, Bool, true, false, not, Option, none, some, List, [], ◌∷◌, if◌then◌else◌,
  sym, arith,
}
use nsjail.Common.Int.{ℤ}
use nsjail.Os.{
  CString, Event, World, value, daemon, geteuid, Action, pure, exit, sys, succeeds, ◌>>=◌, ◌>>◌,
}
use nsjail.Os.Quiet.{
  Quiet, Quiet-pure, Quiet-if, Quiet-bind, Quiet-sys, Quiet-exit, quiet_rules, calls_execv,
}
use nsjail.Os.Ensures.{Ensures, Ensures-pure, Ensures-exit, Ensures-after}
use nsjail.Os.Guarded.{
  Guarded, Guards, Guards-Quiet, Guards-bind, Guards-then, Guarded-start, Guarded-outcome,
}
use nsjail.Conf.{NsjConf}
use nsjail.Log.{log_init_log_file}
use nsjail.Subproc.Child.Guarded.{IsJailed}
use nsjail.Cmdline.{take_argv, finish_parse, cmdline_parse, add_mounts, init_conf}
use nsjail.Cmdline.Values.{cmdline_parse_uid, cmdline_parse_gid}
use nsjail.Cmdline.Switch.{Parse}
use nsjail.Cmdline.Loop.{Opt, usage, apply_options}
use nsjail.Cmdline.Kept.{cmdline_parse-Quiet}
use nsjail.Cmdline.Flags.{given, each_flag, occurs}
use nsjail.Cmdline.Flags.Whole.{cmdline_parse-given}
use nsjail.Nsjail.{run_mode, main, nsjail_set_sig_handlers, nsjail_set_timer, unless_exit}
use nsjail.Nsjail.Kept.{nsjail_set_sig_handlers-Quiet, nsjail_set_timer-Quiet}
use nsjail.Nsjail.Loops.{Same}
use nsjail.Nsjail.Guarded.{run_mode-Guards}

-- A command line that has been read for good holds the program to execute.
abbrev Names : List CString → Bool × NsjConf → Type 0
Names argv (false, conf) = Unit {0}
Names argv (true, conf) = conf.argv ≡ argv

take_argv-Names :
    (argv : List CString) (ok : Bool) (conf : NsjConf)
    → Ensures (Names argv) (take_argv argv ok conf)
take_argv-Names argv false conf = Ensures-pure (Names argv) {a = (false, conf)} tt
take_argv-Names [] true conf = Ensures-exit (Names []) 0
take_argv-Names (arg ∷ args) true conf =
    Ensures-pure (Names (arg ∷ args)) {a = (true, record conf { argv = arg ∷ args })} refl

Names-false : (argv : List CString) (u : Bool × NsjConf) → u.0 ≡ false → Names argv u
Names-false argv (true, conf) h = absurd (ground arith)
Names-false argv (false, conf) h = tt

unless_failed :
    (argv : List CString) (ok : Bool) (v : Bool × NsjConf) (rest : Action (Bool × NsjConf))
    → (ok ≡ false → Names argv v)
    → Ensures (Names argv) rest
    → Ensures (Names argv) (if not ok then pure v else rest)
unless_failed argv true v rest f e = e
unless_failed argv false v rest f e = Ensures-pure (Names argv) {a = v} (f refl)

finish_parse-Names : (argv : List CString) (p : Parse) → Ensures (Names argv) (finish_parse argv p)
unfolding finish_parse
finish_parse-Names argv p =
    let conf = add_mounts p.conf in
    Ensures-after (Names argv) (log_init_log_file conf p.logfile conf.verbose) _ (λ l.
      unless_failed argv l.0 (false, conf) _ (λ _. tt)
        (Ensures-after (Names argv) (cmdline_parse_uid conf p.user) _ (λ u.
          unless_failed argv u.0 u _ (Names-false argv u) (
            Ensures-after (Names argv) (cmdline_parse_gid u.1 p.group) _
              (λ g. take_argv-Names argv g.0 g.1)))))

cmdline_parse-Names :
    (opts : List Opt) (argv : List CString) → Ensures (Names argv) (cmdline_parse opts argv)
unfolding cmdline_parse
cmdline_parse-Names opts argv =
    Ensures-after (Names argv) (init_conf >>= apply_options opts) _ (finish_parse-Names argv)

-- What is true when the program `program` is executed, after the calls `log`, by an nsjail that
-- began in the world `w` with these options and arguments: the command line has been read, and has
-- each Boolean setting off its default exactly if its option was given; the program is the one that
-- stands behind the options; and it is jailed as these settings say, of which only the children may
-- have changed since.
pub record IsExecuted (opts : List Opt) (argv : List CString) (w : World) (program : List CString)
    (log : List Event) : Type 0 where
  pub read : NsjConf
  pub conf : NsjConf
  pub was_read : (cmdline_parse opts argv w).0 ≡ value (true, read)
  pub settings : given read ≡ each_flag (occurs opts)
  pub same : Same read conf
  pub named : program ≡ argv
  pub jailed : IsJailed conf program log

-- `main` once the command line has been read.
abbrev after_read : ℕ → ℕ → Bool × NsjConf → Action ℤ
after_read rounds fuel s =
    unless_exit 1 (pure s.0)
    >> ((if s.1.clone_newuser then pure tt else sys geteuid >> pure tt)
        >> (unless_exit 1 (if s.1.daemonize then succeeds daemon else pure true)
            >> (unless_exit 1 nsjail_set_sig_handlers
                >> (unless_exit 1 (nsjail_set_timer s.1) >> run_mode rounds fuel s.1))))

unless_exit-true : (code : ℕ) (ok : Bool) → Ensures (λ _. ok ≡ true) (unless_exit code (pure ok))
unless_exit-true code true = Ensures-pure (λ _. true ≡ true) {a = tt} refl
unless_exit-true code false = Ensures-exit (λ _. false ≡ true) code

module _ (opts : List Opt) (argv : List CString) (w : World) where
  abbrev R : List CString → List Event → Type 0
  R = IsExecuted opts argv w

  allowed :
      (read : NsjConf)
      → (cmdline_parse opts argv w).0 ≡ value (true, read)
      → (conf : NsjConf) (program : List CString) (log : List Event) → Same read conf
      → IsJailed conf program log
      → R program log
  allowed read e conf program log s j = record {
    read = read;
    conf = conf;
    was_read = e;
    settings = cmdline_parse-given opts argv w true read e;
    same = s;
    named = j.program ∙ (ap (λ c. c.argv) s ∙ (cmdline_parse-Names opts argv).at w (true, read) e);
    jailed = j;
  }

  after_parse :
      (rounds fuel : ℕ) (ok : Bool) (conf : NsjConf)
      → (cmdline_parse opts argv w).0 ≡ value (ok, conf)
      → Guards R (after_read rounds fuel (ok, conf))
  after_parse rounds fuel ok conf e =
      let to_root : Action (Unit {0}) =
        if conf.clone_newuser then pure tt else sys geteuid >> pure tt in
      let go_daemon = unless_exit 1 (if conf.daemonize then succeeds daemon else pure true) in
      let handlers = unless_exit 1 nsjail_set_sig_handlers in
      let timer = unless_exit 1 (nsjail_set_timer conf) in
      Guards-bind (λ _. ok ≡ true) (unless_exit 1 (pure ok)) _
        (Guards-Quiet (unless_exit 1 (pure ok)) (search quiet_rules)) (unless_exit-true 1 ok)
        (λ _ y. Guards-then to_root _ (Guards-Quiet to_root (search quiet_rules)) (λ _.
          Guards-then go_daemon _ (Guards-Quiet go_daemon (search quiet_rules)) (λ _.
            Guards-then handlers _
              (Guards-Quiet handlers (search (quiet_rules, nsjail_set_sig_handlers-Quiet)))
              (λ _.
                Guards-then timer _
                  (Guards-Quiet timer (search (quiet_rules, nsjail_set_timer-Quiet)))
                  (λ _.
                    run_mode-Guards conf (allowed conf (e ∙ ap (λ b. value (b, conf)) y)) fuel
                      rounds conf refl)))))

-- Whatever the kernel answers, at every `execv` of nsjail's, in whichever process, mode and round,
-- what `IsExecuted` says is true: the command line has been read, with each Boolean setting off its default exactly if its
-- option was given, the program is the one behind the options, and the process is confined, under
-- the seccomp policy if that is to be applied, and, in the modes that clone with a mount namespace
-- of the jail's own, in sealed mounts, as the settings read say. That is from a world in which
-- nothing has been executed.
pub main-Guarded :
    (rounds fuel : ℕ) (opts : List Opt) (argv : List CString) (w : World)
    → calls_execv w.log ≡ false
    → Guarded (IsExecuted opts argv w) (main rounds fuel opts argv w).1.log
unfolding main
main-Guarded rounds fuel opts argv w h =
    let parse = cmdline_parse opts argv in
    Guarded-outcome (IsExecuted opts argv w) (after_read rounds fuel) (parse w).0 (parse w).1
      (λ s e. (after_parse opts argv w rounds fuel s.0 s.1 e).at (parse w).1 (
        (Guards-Quiet parse (cmdline_parse-Quiet opts argv)).at w
          (Guarded-start (IsExecuted opts argv w) w.log h)))
      ((Guards-Quiet parse (cmdline_parse-Quiet opts argv)).at w
        (Guarded-start (IsExecuted opts argv w) w.log h))
