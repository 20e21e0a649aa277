-- ===== src/Cmdline/Switch.antt =====
-- cmdline.c: the switch of `cmdlineParse`, in parts that do not overlap. A part answers `none` for
-- an option that is not its own.
use Prim.Native.Nat.{bit_or}
use nsjail.Common.{ℕ, ◌+◌, true, false, Option, none, some, [], ◌∷◌, ◌++◌, ◌==◌, if◌then◌else◌}
use nsjail.Common.Text.{bytes}
use nsjail.Os.{CString}
use nsjail.Conf.{NsjConf, MountPt, Mapping}
use nsjail.Cmdline.Values.{cmdline_split_str_by_colon, pointed}

-- What the loop keeps: the configuration and the local variables. Every mount of `--tmpfsmount`
-- points at the one buffer `tmpfs_sz` for its options.
pub record Parse : Type 0 where
  pub conf : NsjConf
  pub user : Option CString
  pub group : Option CString
  pub logfile : Option CString
  pub tmpfs_sz : CString

abbrev pub on_conf : Parse → NsjConf → Parse
on_conf p conf = record p { conf = conf }

-- The options that set a Boolean.
unfoldable pub flag_option : ℕ → NsjConf → Option NsjConf
flag_option c conf =
    if c == b'd'
    then some (record conf { daemonize = true })
    else if c == b'v'
    then some (record conf { verbose = true })
    else if c == b'e'
    then some (record conf { keep_env = true })
    else if c == b'N'
    then some (record conf { clone_newnet = false })
    else if c == 0x402
    then some (record conf { clone_newuser = false })
    else if c == 0x403
    then some (record conf { clone_newns = false })
    else if c == 0x404
    then some (record conf { clone_newpid = false })
    else if c == 0x405
    then some (record conf { clone_newipc = false })
    else if c == 0x406
    then some (record conf { clone_newuts = false })
    else if c == 0x407
    then some (record conf { clone_newcgroup = true })
    else if c == 0x501
    then some (record conf { keep_caps = true })
    else if c == 0x502
    then some (record conf { is_silent = true })
    else if c == 0x503
    then some (record conf { apply_sandbox = false })
    else if c == 0x504
    then some (record conf { skip_setsid = true })
    else if c == 0x507
    then some (record conf { disable_no_new_privs = true })
    else if c == 0x506
    then some (record conf { pivot_root_only = true })
    else if c == 0x601
    then some (record conf { is_root_rw = true })
    else if c == 0x603
    then some (record conf { mount_proc = false })
    else if c == 0x700
    then some (record conf { iface_no_lo = true })
    else none

-- The options that keep a text.
unfoldable pub text_option : ℕ → CString → NsjConf → Option NsjConf
text_option c arg conf =
    if c == b'H'
    then some (record conf { hostname = arg })
    else if c == b'D'
    then some (record conf { cwd = arg })
    else if c == b'c'
    then some (record conf { chroot = some arg })
    else if c == 0x604
    then some (record conf { bindhost = arg })
    else if c == b'I'
    then some (record conf { iface = some arg })
    else if c == 0x701
    then some (record conf { iface_vs_ip = arg })
    else if c == 0x702
    then some (record conf { iface_vs_nm = arg })
    else if c == 0x703
    then some (record conf { iface_vs_gw = arg })
    else if c == 0x802
    then some (record conf { cgroup_mem_mount = arg })
    else if c == 0x803
    then some (record conf { cgroup_mem_parent = arg })
    else if c == b'E'
    then some (record conf { envs = conf.envs ++ arg ∷ [] })
    else none

-- The bits of <sys/personality.h>.
unfoldable pub persona_option : ℕ → NsjConf → Option NsjConf
persona_option c conf =
    if c == 0x301
    then some (record conf { personality = bit_or conf.personality 0x020_0000 })
    else if c == 0x302
    then some (record conf { personality = bit_or conf.personality 0x010_0000 })
    else if c == 0x303
    then some (record conf { personality = bit_or conf.personality 0x040_0000 })
    else if c == 0x304
    then some (record conf { personality = bit_or conf.personality 0x800_0000 })
    else if c == 0x305
    then some (record conf { personality = bit_or conf.personality 0x004_0000 })
    else none

-- The options that keep a text in a local variable.
unfoldable pub local_option : ℕ → CString → Parse → Option Parse
local_option c arg p =
    if c == b'u'
    then some (record p { user = some arg })
    else if c == b'g'
    then some (record p { group = some arg })
    else if c == b'l'
    then some (record p { logfile = some arg })
    else none

unfoldable pub mapping_of : CString → Mapping
mapping_of arg =
    let inside = cmdline_split_str_by_colon arg in
    let outside = cmdline_split_str_by_colon (pointed inside) in
    elim inside.1 [
      | none ↦ record { inside_id = outside.0; outside_id = outside.0; count = pointed outside }
      | some second ↦ record {
        inside_id = inside.0;
        outside_id = outside.0;
        count = pointed outside;
      }
    ]

-- MS_RDONLY is 1, MS_BIND is 4096 and MS_REC is 16384.
abbrev pub ms_rdonly : ℕ
ms_rdonly = 1

abbrev pub ms_bind_rec : ℕ
ms_bind_rec = 0x5000

unfoldable pub bind_mount : CString → ℕ → MountPt
bind_mount arg flags =
    let parts = cmdline_split_str_by_colon arg in
    record { src = some parts.0; dst = pointed parts; fs_type = []; options = []; flags = flags }

abbrev pub tmpfs_mount : CString → CString → MountPt
tmpfs_mount dst options = record {
  src = none;
  dst = dst;
  fs_type = bytes "tmpfs";
  options = options;
  flags = 0;
}

abbrev pub append_mount : Parse → MountPt → Parse
append_mount p m = record p { conf = record p.conf { mountpts = p.conf.mountpts ++ m ∷ [] } }

-- The options that append to a list.
unfoldable pub list_option : ℕ → CString → Parse → Option Parse
list_option c arg p =
    if c == b'U'
    then some
        (on_conf p (record p.conf { uid_mappings = p.conf.uid_mappings ++ mapping_of arg ∷ [] }))
    else if c == b'G'
    then some
        (on_conf p (record p.conf { gid_mappings = p.conf.gid_mappings ++ mapping_of arg ∷ [] }))
    else if c == b'R'
    then some (append_mount p (bind_mount arg (ms_bind_rec + ms_rdonly)))
    else if c == b'B'
    then some (append_mount p (bind_mount arg ms_bind_rec))
    else if c == b'T'
    then some (append_mount p (tmpfs_mount arg p.tmpfs_sz))
    else none
