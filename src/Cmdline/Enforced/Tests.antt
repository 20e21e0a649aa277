-- ===== src/Cmdline/Enforced/Tests.antt =====
-- A limit that is given twice.
use nsjail.Common.{◌-◌, ◌≡◌, refl, Bool, List, [], ◌∷◌, get_or}
use nsjail.Common.Text.{bytes}
use nsjail.Os.{CString, Kernel, World, Outcome, value, strtoull, done}
use nsjail.Conf.{NsjConf}
use nsjail.Log.{log_init_log_file}
use nsjail.Cmdline.{cmdline_parse, init_conf, finish_parse, add_mounts}
use nsjail.Cmdline.Values.{
  cmdline_is_a_number, numeric_limit, cmdline_parse_r_limit, cmdline_parse_uid, cmdline_parse_gid,
}
use nsjail.Cmdline.Switch.{flag_option}
use nsjail.Cmdline.Loop.{Opt, apply_options, apply_option, limit_option, quiet_option}
use nsjail.Tests.Worlds.{conf}

-- `strtoull` reads a digit; every other call succeeds and returns 0.
abbrev digits : Kernel
digits log (strtoull text) = done (get_or text 0 0 - b'0') []
digits log c = done 0 []

abbrev world : World
world = record { kernel = digits; log = [] }

-- --rlimit_as 7 -e --rlimit_as 2
abbrev opts : List Opt
opts =
    record { c = 0x201; optarg = bytes "7" }
    ∷ record { c = b'e'; optarg = [] }
    ∷ record { c = 0x201; optarg = bytes "2" }
    ∷ []

abbrev argv : List CString
argv = bytes "/bin/sh" ∷ []

abbrev parsed : Outcome (Bool × NsjConf) → NsjConf
parsed (value (ok, conf)) = conf
parsed _ = conf

abbrev settings : NsjConf
unfolding cmdline_parse
settings = parsed (cmdline_parse opts argv world).0

two_megabytes : settings.rl_as ≡ 0x20_0000
unfolding settings cmdline_parse init_conf finish_parse add_mounts log_init_log_file apply_options
    apply_option limit_option quiet_option flag_option cmdline_parse_r_limit numeric_limit
    cmdline_is_a_number cmdline_parse_uid cmdline_parse_gid
two_megabytes = refl
