-- ===== src/Cmdline/Tests.antt =====
-- Command lines, mappings and limits.
use mathlib.Core.Logic.{◌≢◌}
use nsjail.Os.{exited, CString, Kernel, World, strtoull, fail, done, Outcome, value}
use nsjail.Common.{
  length, drop, get_elem?, none, some, false, ◌-◌, ◌^◌, ◌≡◌, refl, Bool, true, [], ◌∷◌, List, arith,
}
use nsjail.Cmdline.{start_of, cmdline_parse, init_conf, finish_parse, add_mounts}
use nsjail.Cmdline.Loop.{apply_option, Opt, apply_options, limit_option, quiet_option}
use nsjail.Cmdline.Table.{
  CustomOption, custom_opts, option_help, cmdline_help, plain, bold, short_opts, short_of,
}
use nsjail.Cmdline.Options.{custom_opts-IsTaken}
use nsjail.Common.Text.{bytes}
use nsjail.Conf.{NsjConf, Mapping}
use nsjail.Log.{log_init_log_file}
use nsjail.Tests.Worlds.{conf, start}
use nsjail.Cmdline.Switch.{mapping_of, flag_option}
use nsjail.Cmdline.Values.{
  cmdline_is_a_number, cmdline_parse_r_limit, cmdline_parse_uid, cmdline_parse_gid,
}
use nsjail.Cmdline.Flags.{given, each_flag, occurs}
use nsjail.Cmdline.Flags.Whole.{cmdline_parse-given}
use nsjail.Cmdline.Mapping.{print_mapping, mapping_of-print_mapping}
use nsjail.Cmdline.Params.{cmdline_log_params, print_hex}
use nsjail.Log.Line.{info}
use nsjail.Cmdline.Limits.{cmdline_parse_r_limit-limit_for}

-- -e --keep_caps
abbrev opts : List Opt
opts = record { c = b'e'; optarg = [] } ∷ record { c = 0x501; optarg = [] } ∷ []

abbrev argv : List CString
argv = bytes "/bin/sh" ∷ []

abbrev parsed : Outcome (Bool × NsjConf) → NsjConf
parsed (value (ok, conf)) = conf
parsed _ = conf

abbrev settings : NsjConf
unfolding cmdline_parse
settings = parsed (cmdline_parse opts argv start).0

parse_two : (cmdline_parse opts argv start).0 ≡ value (true, settings)
unfolding cmdline_parse init_conf finish_parse add_mounts log_init_log_file apply_options
    apply_option limit_option quiet_option flag_option cmdline_parse_r_limit cmdline_parse_uid
    cmdline_parse_gid settings
parse_two = refl

cmdline_parse-given_example : given settings ≡ each_flag (occurs opts)
cmdline_parse-given_example = cmdline_parse-given opts argv start true settings parse_two

-- 0:1000:1
abbrev one : Mapping
one = record { inside_id = bytes "0"; outside_id = bytes "1000"; count = bytes "1" }

mapping_of-print_mapping_example : mapping_of (print_mapping one) ≡ one
mapping_of-print_mapping_example = mapping_of-print_mapping one refl refl

-- No number is in range.
abbrev strict : Kernel
strict log (strtoull text) = fail 34
strict log c = done 0 []

abbrev strict_world : World
strict_world = record { kernel = strict; log = [] }

nines : cmdline_is_a_number (bytes "99999999999999999999") ≡ true
unfolding cmdline_is_a_number
nines = refl

cmdline_parse_r_limit-limit_for_example :
    (cmdline_parse_r_limit 9 (bytes "99999999999999999999") 1024 strict_world).0
    ≡ value (2 ^ 64 - 1024)
cmdline_parse_r_limit-limit_for_example =
    cmdline_parse_r_limit-limit_for 9 0 [] (bytes "99999999999999999999") 1024 strict_world refl
      refl nines (omega arith) (omega arith) (omega arith)

-- --keep_env, or -e
abbrev keep_env_option : CustomOption
keep_env_option = record {
  name = bytes "keep_env";
  has_arg = false;
  val = b'e';
  descr = bytes "Should all environment variables be passed to the child?";
}

keep_env_found : get_elem? custom_opts 15 ≡ some keep_env_option
unfolding custom_opts
keep_env_found = refl

keep_env_help :
    option_help keep_env_option
    ≡ bold (bytes " --keep_env|-e ") ∷ plain (9 ∷ keep_env_option.descr) ∷ []
unfolding option_help
keep_env_help = refl

custom_opts-IsTaken_example :
    ((apply_option (record { c = b'e'; optarg = bytes "x" }) (start_of conf) start).0 ≢ exited 0)
    × (apply_option (record { c = b'e'; optarg = bytes "x" }) (start_of conf)
        ≡ apply_option (record { c = b'e'; optarg = [] }) (start_of conf))
    × (short_of short_opts b'e' ≡ some false)
custom_opts-IsTaken_example =
    custom_opts-IsTaken 15 keep_env_option (bytes "x") (start_of conf) start keep_env_found
      (λ e. omega (arith, e)) (λ e. omega (arith, e))

help_lines : length (cmdline_help (bytes "nsjail") custom_opts) ≡ 127
unfolding cmdline_help option_help custom_opts
help_lines = refl

abbrev mounted : NsjConf
mounted = record conf {
  uid_mappings = one ∷ [];
  mountpts =
      record { src = none; dst = bytes "/proc"; fs_type = bytes "proc"; options = []; flags = 0x1f }
      ∷ [];
}

params_logged :
    drop 2 (cmdline_log_params (bytes "(null)") mounted)
    ≡ (info, bytes "Mount point: src:'(null)' dst:'/proc' type:'proc' flags:0x1f options:''")
      ∷ (info, bytes "Uid mapping: inside_uid:'0' outside_uid:'1000' count:'1'")
      ∷ []
unfolding cmdline_log_params print_hex
params_logged = refl
