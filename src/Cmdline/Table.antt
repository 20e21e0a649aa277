-- ===== src/Cmdline/Table.antt =====
-- cmdline.c: the options that `cmdlineParse` has `getopt_long` look for, and the help text.
use Prim.Native.String.{String}
use nsjail.Common.{
  ℕ, Bool, true, false, Option, none, some, List, [], ◌∷◌, ◌++◌, ltb, ◌==◌, if◌then◌else◌,
}
use nsjail.Common.Text.{bytes}
use nsjail.Os.{CString}

-- `struct custom_option`, without the fields of `struct option` that are the same in all.
pub record CustomOption : Type 0 where
  pub name : CString
  pub has_arg : Bool
  pub val : ℕ
  pub descr : CString

abbrev option : String → Bool → ℕ → String → CustomOption
option name has_arg val descr = record {
  name = bytes name;
  has_arg = has_arg;
  val = val;
  descr = bytes descr;
}

-- The table up to the entry that ends it.
unfoldable pub custom_opts : List CustomOption
custom_opts =
    option "help" false b'h' "Help plz.."
    ∷ option "mode" true b'M'
        "Execution mode (default: o [MODE_STANDALONE_ONCE]):\n\tl: Wait for connections on a TCP port (specified with --port) [MODE_LISTEN_TCP]\n\to: Immediately launch a single process on a console using clone/execve [MODE_STANDALONE_ONCE]\n\te: Immediately launch a single process on a console using execve [MODE_STANDALONE_EXECVE]\n\tr: Immediately launch a single process on a console, keep doing it forever [MODE_STANDALONE_RERUN]"
    ∷ option "chroot" true b'c' "Directory containing / of the jail (default: none)"
    ∷ option "rw" false 0x601 "Mount / as RW (default: RO)"
    ∷ option "user" true b'u'
        "Username/uid of processess inside the jail (default: your current uid). You can also use inside_ns_uid:outside_ns_uid convention here"
    ∷ option "group" true b'g'
        "Groupname/gid of processess inside the jail (default: your current gid). You can also use inside_ns_gid:global_ns_gid convention here"
    ∷ option "hostname" true b'H' "UTS name (hostname) of the jail (default: 'NSJAIL')"
    ∷ option "cwd" true b'D' "Directory in the namespace the process will run (default: '/')"
    ∷ option "port" true b'p' "TCP port to bind to (enables MODE_LISTEN_TCP) (default: 0)"
    ∷ option "bindhost" true 0x604
        "IP address port to bind to (only in [MODE_LISTEN_TCP]), '::ffff:127.0.0.1' for locahost (default: '::')"
    ∷ option "max_conns_per_ip" true b'i'
        "Maximum number of connections per one IP (default: 0 (unlimited))"
    ∷ option "log" true b'l' "Log file (default: /proc/self/fd/2)"
    ∷ option "time_limit" true b't' "Maximum time that a jail can exist, in seconds (default: 600)"
    ∷ option "daemon" false b'd' "Daemonize after start"
    ∷ option "verbose" false b'v' "Verbose output"
    ∷ option "keep_env" false b'e' "Should all environment variables be passed to the child?"
    ∷ option "env" true b'E' "Environment variable (can be used multiple times)"
    ∷ option "keep_caps" false 0x0501 "Don't drop capabilities (DANGEROUS)"
    ∷ option "silent" false 0x0502 "Redirect child's fd:0/1/2 to /dev/null"
    ∷ option "disable_sandbox" false 0x0503 "Don't enable the seccomp-bpf sandboxing"
    ∷ option "skip_setsid" false 0x0504
        "Don't call setsid(), allows for terminal signal handling in the sandboxed process"
    ∷ option "pass_fd" true 0x0505
        "Don't close this FD before executing child (can be specified multiple times), by default: 0/1/2 are kept open"
    ∷ option "pivot_root_only" false 0x0506
        "Only perform pivot_root, no chroot. This will enable nested namespaces"
    ∷ option "disable_no_new_privs" false 0x0507 "Don't set the prctl(NO_NEW_PRIVS, 1) (DANGEROUS)"
    ∷ option "rlimit_as" true 0x0201
        "RLIMIT_AS in MB, 'max' for RLIM_INFINITY, 'def' for the current value (default: 512)"
    ∷ option "rlimit_core" true 0x0202
        "RLIMIT_CORE in MB, 'max' for RLIM_INFINITY, 'def' for the current value (default: 0)"
    ∷ option "rlimit_cpu" true 0x0203
        "RLIMIT_CPU, 'max' for RLIM_INFINITY, 'def' for the current value (default: 600)"
    ∷ option "rlimit_fsize" true 0x0204
        "RLIMIT_FSIZE in MB, 'max' for RLIM_INFINITY, 'def' for the current value (default: 1)"
    ∷ option "rlimit_nofile" true 0x0205
        "RLIMIT_NOFILE, 'max' for RLIM_INFINITY, 'def' for the current value (default: 32)"
    ∷ option "rlimit_nproc" true 0x0206
        "RLIMIT_NPROC, 'max' for RLIM_INFINITY, 'def' for the current value (default: 'def')"
    ∷ option "rlimit_stack" true 0x0207
        "RLIMIT_STACK in MB, 'max' for RLIM_INFINITY, 'def' for the current value (default: 'def')"
    ∷ option "persona_addr_compat_layout" false 0x0301 "personality(ADDR_COMPAT_LAYOUT)"
    ∷ option "persona_mmap_page_zero" false 0x0302 "personality(MMAP_PAGE_ZERO)"
    ∷ option "persona_read_implies_exec" false 0x0303 "personality(READ_IMPLIES_EXEC)"
    ∷ option "persona_addr_limit_3gb" false 0x0304 "personality(ADDR_LIMIT_3GB)"
    ∷ option "persona_addr_no_randomize" false 0x0305 "personality(ADDR_NO_RANDOMIZE)"
    ∷ option "disable_clone_newnet" false b'N'
        "Don't use CLONE_NEWNET. Enable networking inside the jail"
    ∷ option "disable_clone_newuser" false 0x0402 "Don't use CLONE_NEWUSER. Requires euid==0"
    ∷ option "disable_clone_newns" false 0x0403 "Don't use CLONE_NEWNS"
    ∷ option "disable_clone_newpid" false 0x0404 "Don't use CLONE_NEWPID"
    ∷ option "disable_clone_newipc" false 0x0405 "Don't use CLONE_NEWIPC"
    ∷ option "disable_clone_newuts" false 0x0406 "Don't use CLONE_NEWUTS"
    ∷ option "enable_clone_newcgroup" false 0x0407 "Use CLONE_NEWCGROUP"
    ∷ option "uid_mapping" true b'U'
        "Add a custom uid mapping of the form inside_uid:outside_uid:count. Setting this requires newuidmap to be present"
    ∷ option "gid_mapping" true b'G'
        "Add a custom gid mapping of the form inside_gid:outside_gid:count. Setting this requires newuidmap to be present"
    ∷ option "bindmount_ro" true b'R'
        "List of mountpoints to be mounted --bind (ro) inside the container. Can be specified multiple times. Supports 'source' syntax, or 'source:dest'"
    ∷ option "bindmount" true b'B'
        "List of mountpoints to be mounted --bind (rw) inside the container. Can be specified multiple times. Supports 'source' syntax, or 'source:dest'"
    ∷ option "tmpfsmount" true b'T'
        "List of mountpoints to be mounted as RW/tmpfs inside the container. Can be specified multiple times. Supports 'dest' syntax"
    ∷ option "tmpfs_size" true 0x0602
        "Number of bytes to allocate for tmpfsmounts (default: 4194304)"
    ∷ option "disable_proc" false 0x0603 "Disable mounting /proc in the jail"
    ∷ option "cgroup_mem_max" true 0x0801
        "Maximum number of bytes to use in the group (default: '0' - disabled)"
    ∷ option "cgroup_mem_mount" true 0x0802
        "Location of memory cgroup FS (default: '/sys/fs/cgroup/memory')"
    ∷ option "cgroup_mem_parent" true 0x0803
        "Which pre-existing memory cgroup to use as a parent (default: 'NSJAIL')"
    ∷ option "iface_no_lo" false 0x700 "Don't bring up the 'lo' interface"
    ∷ option "iface" true b'I'
        "Interface which will be cloned (MACVLAN) and put inside the subprocess' namespace as 'vs'"
    ∷ option "iface_vs_ip" true 0x701 "IP of the 'vs' interface"
    ∷ option "iface_vs_nm" true 0x702 "Netmask of the 'vs' interface"
    ∷ option "iface_vs_gw" true 0x703 "Default GW for the 'vs' interface"
    ∷ []

-- The short options, each with a colon behind it if it takes an argument.
abbrev pub short_opts : CString
short_opts = bytes "H:D:c:p:i:u:g:l:t:M:Ndveh?E:R:B:T:I:U:G:"

-- Whether `getopt_long` finds `c` among the short options, and whether it takes an argument then.
abbrev pub short_of : CString → ℕ → Option Bool
short_of [] c = none
short_of (s ∷ text) c =
    if s == c then some (elim text [ [] ↦ false | next ∷ _ ↦ next == b':' ]) else short_of text c

-- `LOG_HELP` and `LOG_HELP_BOLD`
pub data HelpLine : Type 0 where
  plain bold : CString → HelpLine

abbrev value_mark : Bool → CString
value_mark has_arg = if has_arg then bytes "VALUE" else []

unfoldable pub option_help : CustomOption → List HelpLine
option_help o =
    bold (
      bytes " --"
      ++ (o.name
          ++ ((if ltb o.val 0x80 then bytes "|-" ++ o.val ∷ [] else [])
              ++ (b' ' ∷ value_mark o.has_arg))))
    ∷ plain (9 ∷ o.descr)
    ∷ []

abbrev options_help : List CustomOption → List HelpLine
options_help [] = []
options_help (o ∷ os) = option_help o ++ options_help os

unfoldable pub cmdline_help : CString → List CustomOption → List HelpLine
cmdline_help pname opts =
    bold (bytes "Usage: " ++ (pname ++ bytes " [options] -- path_to_command [args]"))
      ∷ bold (bytes "Options:")
      ∷ options_help opts
    ++ bold (10 ∷ bytes " Examples: ")
      ∷ plain (bytes " Wait on a port 31337 for connections, and run /bin/sh")
      ∷ bold (bytes "  nsjail -Ml --port 31337 --chroot / -- /bin/sh -i")
      ∷ plain (bytes " Re-run echo command as a sub-process")
      ∷ bold (bytes "  nsjail -Mr --chroot / -- /bin/echo \"ABC\"")
      ∷ plain (bytes " Run echo command once only, as a sub-process")
      ∷ bold (bytes "  nsjail -Mo --chroot / -- /bin/echo \"ABC\"")
      ∷ plain (bytes " Execute echo command directly, without a supervising process")
      ∷ bold (bytes "  nsjail -Me --chroot / --disable_proc -- /bin/echo \"ABC\"")
      ∷ []
