-- ===== src/User/MapSet.antt =====
-- user.c: what it is for a map to be set.
use nsjail.Common.{
  ℕ, zero, suc, ◌≡◌, refl, sym, ap, ◌∙◌, Bool, true, false, Option, none, some, List, [], ◌∷◌, ◌++◌,
  length, ◌==◌, arith, if◌then◌else◌,
}
use mathlib.Core.List.{append_assoc}
use nsjail.Common.Int.{ℤ}
use nsjail.Common.Text.{bytes}
use nsjail.Os.{CString, Event, World, system, Reply, fail, done, value, pure, wait_forever}
use nsjail.Os.Done.{Makes, IsLasting}
use nsjail.Conf.{NsjConf}
use nsjail.Cgroup.{o_wronly}
use nsjail.Util.Put.{IsPut, IsPut-IsLasting}
use nsjail.User.Groups.{GroupsDenied}
use nsjail.User.{
  Command, is_zero, proc_file, map_line, map_command, run_gid_command, run_uid_command,
}

-- The command has run and ended with status 0.
pub record HasRun (cmd : CString) (log : List Event) : Type 0 where
  pub out : List ℕ
  pub earlier : List Event
  pub later : List Event
  pub calls : log ≡ later ++ (system cmd, done 0 out) ∷ earlier

-- The command that is built has run.
pub record IsHelped (command : Option Command) (log : List Event) : Type 0 where
  pub cmd : Command
  pub built : command ≡ some cmd
  pub ran : HasRun cmd.text log

IsHelped-IsLasting : (command : Option Command) → IsLasting (IsHelped command)
IsHelped-IsLasting command new log h = record {
  cmd = h.cmd;
  built = h.built;
  ran = record {
    out = h.ran.out;
    earlier = h.ran.earlier;
    later = new ++ h.ran.later;
    calls = ap (λ l. new ++ l) h.ran.calls ∙ sym (append_assoc new h.ran.later _);
  };
}

-- A map is written to the file of that name, if no mappings are given, and else a helper sets it.
abbrev pub MapSet : Bool → CString → CString → Option Command → List Event → Type 0
MapSet true file line command log = IsPut file o_wronly line log
MapSet false file line command log = IsHelped command log

pub MapSet-IsLasting :
    (b : Bool) (file line : CString) (command : Option Command)
    → IsLasting (MapSet b file line command)
MapSet-IsLasting true file line command = IsPut-IsLasting file o_wronly line
MapSet-IsLasting false file line command = IsHelped-IsLasting command

abbrev pub gid_command : NsjConf → ℤ → Option Command
gid_command conf pid =
    map_command (bytes "/usr/bin/newgidmap") pid conf.inside_gid conf.outside_gid conf.gid_mappings

abbrev pub uid_command : NsjConf → ℤ → Option Command
uid_command conf pid =
    map_command (bytes "/usr/bin/newuidmap") pid conf.inside_uid conf.outside_uid conf.uid_mappings

abbrev pub GidMapSet : NsjConf → ℤ → List Event → Type 0
GidMapSet conf pid =
    MapSet (length conf.gid_mappings == 0) (proc_file pid (bytes "gid_map"))
      (map_line conf.inside_gid conf.outside_gid) (gid_command conf pid)

abbrev pub UidMapSet : NsjConf → ℤ → List Event → Type 0
UidMapSet conf pid =
    MapSet (length conf.uid_mappings == 0) (proc_file pid (bytes "uid_map"))
      (map_line conf.inside_uid conf.outside_uid) (uid_command conf pid)

abbrev pub Maps : NsjConf → ℤ → List Event → Type 0
Maps conf pid log = GidMapSet conf pid log × UidMapSet conf pid log

-- Both maps are set and groups cannot be dropped, if the child has a user namespace.
abbrev pub MappedIf : Bool → NsjConf → ℤ → List Event → Type 0
MappedIf false conf pid log = Unit {0}
MappedIf true conf pid log = GroupsDenied pid log × Maps conf pid log

-- After `system`.
gid_ran :
    (cmd : Command) (r : Reply) (w : World)
    → ((if is_zero r then pure true else wait_forever)
        (record w { log = (system cmd.text, r) ∷ w.log })).0
      ≡ value true
    → IsHelped
        (some cmd)
        ((if is_zero r then pure true else wait_forever)
          (record w { log = (system cmd.text, r) ∷ w.log })).1.log
gid_ran cmd (fail e) w h = absurd (ground arith)
gid_ran cmd (done zero out) w h = record {
  cmd = cmd;
  built = refl;
  ran = record { out = out; earlier = w.log; later = []; calls = refl };
}
gid_ran cmd (done (suc n) out) w h = absurd (ground arith)

uid_ran :
    (cmd : Command) (r : Reply) (log : List Event)
    → is_zero r ≡ true
    → IsHelped (some cmd) ((system cmd.text, r) ∷ log)
uid_ran cmd (fail e) log h = absurd (ground arith)
uid_ran cmd (done zero out) log h = record {
  cmd = cmd;
  built = refl;
  ran = record { out = out; earlier = log; later = []; calls = refl };
}
uid_ran cmd (done (suc n) out) log h = absurd (ground arith)

pub run_gid_command-IsHelped :
    (command : Option Command) → Makes (IsHelped command) (run_gid_command command)
unfolding run_gid_command
run_gid_command-IsHelped none = record { at = λ w h. absurd (ground arith) }
run_gid_command-IsHelped (some cmd) = record {
  at = λ w h. gid_ran cmd (w.kernel w.log (system cmd.text)) w h;
}

pub run_uid_command-IsHelped :
    (command : Option Command) → Makes (IsHelped command) (run_uid_command command)
unfolding run_uid_command
run_uid_command-IsHelped none = record { at = λ w h. absurd (ground arith) }
run_uid_command-IsHelped (some cmd) = record {
  at = λ w h. uid_ran cmd (w.kernel w.log (system cmd.text)) w.log (ground arith);
}
