-- ===== src/Cmdline/Loop.antt =====
-- cmdline.c: the loop of `cmdlineParse` over what `getopt_long` finds.
use nsjail.Common.{
  ℕ, ◌*◌, ◌%◌, ◌^◌, Bool, ◌||◌, Option, none, some, List, [], ◌∷◌, ◌++◌, map, get_or, ◌==◌,
  if◌then◌else◌,
}
use nsjail.Common.Text.{bytes, print_ℕ, snprintf, path_max, eq_bytes}
use nsjail.Os.{CString, strtoull, strtol, Action, pure, exit, sys, ◌>>=◌}
use nsjail.Conf.{
  NsjConf, NsMode, MountPt, listen_tcp, standalone_once, standalone_execve, standalone_rerun,
}
use nsjail.Contain.{to_int}
use nsjail.Cmdline.Values.{ull_of, to_long, long_of, cmdline_parse_r_limit}
use nsjail.Cmdline.Switch.{
  Parse, on_conf, flag_option, text_option, persona_option, local_option, list_option,
}

-- An option that `getopt_long` has found.
pub record Opt : Type 0 where
  pub c : ℕ
  pub optarg : CString

abbrev pub megabyte : ℕ
megabyte = 1024 * 1024

abbrev limit_to : ℕ → CString → ℕ → (ℕ → NsjConf) → Option (Action NsjConf)
limit_to res arg mul set = some (cmdline_parse_r_limit res arg mul >>= λ v. pure (set v))

-- The resource limits, by their numbers in <sys/resource.h>.
unfoldable pub limit_option : ℕ → CString → NsjConf → Option (Action NsjConf)
limit_option c arg conf =
    if c == 0x201
    then limit_to 9 arg megabyte (λ v. record conf { rl_as = v })
    else if c == 0x202
    then limit_to 4 arg megabyte (λ v. record conf { rl_core = v })
    else if c == 0x203
    then limit_to 0 arg 1 (λ v. record conf { rl_cpu = v })
    else if c == 0x204
    then limit_to 1 arg megabyte (λ v. record conf { rl_fsize = v })
    else if c == 0x205
    then limit_to 7 arg 1 (λ v. record conf { rl_nofile = v })
    else if c == 0x206
    then limit_to 6 arg 1 (λ v. record conf { rl_nproc = v })
    else if c == 0x207
    then limit_to 3 arg megabyte (λ v. record conf { rl_stack = v })
    else none

abbrev pub tmpfs_options : ℕ → CString
tmpfs_options size = snprintf path_max (bytes "size=" ++ print_ℕ size)

-- A mount that points at the buffer sees what is written to it. Until the loop is over those are
-- the mounts of type tmpfs.
abbrev pub see : CString → MountPt → MountPt
see text m = if eq_bytes m.fs_type (bytes "tmpfs") then record m { options = text } else m

unfoldable pub set_tmpfs_size : Parse → ℕ → Parse
set_tmpfs_size p size = record p {
  conf = record p.conf {
    tmpfs_size = size;
    mountpts = map (see (tmpfs_options size)) p.conf.mountpts;
  };
  tmpfs_sz = tmpfs_options size;
}

-- A number as the configuration takes it. The first two stand for `strtoul` and `strtoull`.
unfoldable pub set_number : ℕ → ℕ → Parse → Option Parse
set_number c n p =
    if c == b'p'
    then some (on_conf p (record p.conf { port = to_int n; mode = listen_tcp }))
    else if c == b'i'
    then some (on_conf p (record p.conf { max_conns_per_ip = n % 2 ^ 32 }))
    else if c == 0x602
    then some (set_tmpfs_size p n)
    else if c == 0x801
    then some (on_conf p (record p.conf { cgroup_mem_max = n }))
    else none

unfoldable pub set_long : ℕ → ℕ → Parse → Option Parse
set_long c n p =
    if c == b't'
    then some (on_conf p (record p.conf { tlimit = to_long n }))
    else if c == 0x505
    then some (on_conf p (record p.conf { open_fds = to_int n ∷ p.conf.open_fds }))
    else none

abbrev pub takes_number : ℕ → Bool
takes_number c = c == b'p' || (c == b'i' || (c == 0x602 || c == 0x801))

abbrev pub takes_long : ℕ → Bool
takes_long c = c == b't' || c == 0x505

-- The switch of `-M`, on the first byte.
unfoldable pub mode_of : CString → Option NsMode
mode_of arg =
    let c = get_or arg 0 0 in
    if c == b'l'
    then some listen_tcp
    else if c == b'o'
    then some standalone_once
    else if c == b'e'
    then some standalone_execve
    else if c == b'r'
    then some standalone_rerun
    else none

-- `cmdlineUsage` prints and exits with 0.
abbrev pub usage : {A : Type 0} → Action A
usage = exit 0

abbrev pub or_usage : Parse → Option Parse → Action Parse
or_usage p none = usage
or_usage p (some p') = pure p'

abbrev pub moded : Parse → Option NsMode → Option Parse
moded p none = none
moded p (some mode) = some (on_conf p (record p.conf { mode = mode }))

-- The options that call nothing.
unfoldable pub quiet_option : Opt → Parse → Option Parse
quiet_option o p = elim (flag_option o.c p.conf) [
  | some conf ↦ some (on_conf p conf)
  | none ↦ elim (text_option o.c o.optarg p.conf) [
    | some conf ↦ some (on_conf p conf)
    | none ↦ elim (persona_option o.c p.conf) [
      | some conf ↦ some (on_conf p conf)
      | none ↦ elim (local_option o.c o.optarg p) [
        | some p' ↦ some p'
        | none ↦ elim (list_option o.c o.optarg p) [
          | some p' ↦ some p'
          | none ↦ if o.c == b'M' then moded p (mode_of o.optarg) else none
        ]
      ]
    ]
  ]
]

-- One round of the loop. 'h', '?' and what is not in the switch end in the usage text.
unfoldable pub apply_option : Opt → Parse → Action Parse
apply_option o p =
    if takes_number o.c
    then (sys (strtoull o.optarg) >>= λ r. or_usage p (set_number o.c (ull_of r) p))
    else if takes_long o.c
    then (sys (strtol o.optarg) >>= λ r. or_usage p (set_long o.c (long_of r) p))
    else elim (limit_option o.c o.optarg p.conf) [
      | some m ↦ m >>= λ conf. pure (on_conf p conf)
      | none ↦ or_usage p (quiet_option o p)
    ]

unfoldable pub apply_options : List Opt → Parse → Action Parse
apply_options [] p = pure p
apply_options (o ∷ opts) p = apply_option o p >>= apply_options opts
