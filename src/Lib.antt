-- ===== src/Lib.antt =====
-- nsjail starts a program in namespaces of its own, with limits, without privileges and under a
-- seccomp policy, and follows the lives of the processes it has started.
--
-- Parts, in the order of a run: cmdline.c (Cmdline) reads the options into `struct nsjconf_t`
-- (common.h, here Conf) and has log.c (Log) open the log. nsjail.c (Nsjail) runs one jail, or
-- listens and asks net.c (Net) whether a peer may have a further one. subproc.c (Subproc) clones a
-- child and keeps it in a list; the parent prepares the child's network interface (Net.Parent), its
-- memory cgroup (cgroup.c, Cgroup) and its user and group maps (user.c, User); the child confines
-- itself by contain.c, pid.c and uts.c (Contain), which have mount.c (Mount) set up its file system
-- and net.c its interfaces (Net.Iface), puts the policy of sandbox.c (Sandbox) in force, and
-- executes the program. The policy is assembled by the macros and functions of
-- seccomp/bpf-helper.[ch] (Seccomp). All of them read and write by util.c (Util).
--
-- Files: Common has shared types, Boolean tests and lists over native numbers, C's integers and
-- texts. Os is the world: a function of nsjail is an action that passes a world on and ends with a
-- value, an exit, an `execv`, an endless wait, or for want of fuel. The kernel and the C library
-- are a parameter of the world: a function that answers each call from the calls before it, so a
-- theorem for every world is one for every kernel; the world's log keeps calls and answers. A C
-- function `netLimitConns` is `net_limit_conns`, and a loop is a function named for what it does
-- beside it. State that the source keeps in `struct nsjconf_t` is passed and returned. The modules
-- of rules below Os say what a chain of actions leaves: Quiet of actions that only add calls to the
-- log, none of them an `execv`, Ensures of the result, Under of the result under one kernel, Done of
-- the calls that have succeeded, Guarded of what is true at every `execv`, Descriptors of the calls
-- that open and close, Returns that there is a result. A module Kept says of a part of the program
-- that it is quiet.
--
-- Seccomp: Insn has the instructions and macros, Wide the 64-bit comparisons, Label the label
-- table, Resolve the pass that turns labels into distances, Machine the kernel's BPF machine as an
-- interface of laws. Contain.State says what the calls in a log have made of a process, and
-- Contain.Listed, Settled and Passed what becomes of the descriptors that /proc lists.
--
-- Cmdline: Values has numbers, limits, users and groups; Switch and Loop have the switch and its
-- loop, over a list of what `getopt_long` finds, which is a parameter; Table has the options as
-- they are declared, with the help text, and Options compares them with the switch; Flags says
-- which Boolean settings the options depart in, and Enforced follows the options --rlimit_* to the
-- limits that the child has in the end. A buffer that mounts point at, the size of tmpfs, is written
-- to in all of them at once (Loop.see). Params has what `cmdlineLogParams` logs.
--
-- Net: netInitNsFromParent is there in both its builds, with libnl (Net.Netlink) and with /sbin/ip
-- (Net.Parent); the models that call it call the latter. The functions of libnl are answered by the
-- world like those of the kernel.
--
-- Nsjail: a signal may come at any time. The handler only sets two variables, so which signals
-- have come since the variables were last read is an answer of the kernel (Os.signals). Limit has
-- the rounds of the listening loop as a step relation, Loops what a round of either loop keeps, and
-- Standalone with what the standalone loop ends.
--
-- Fuel: the loops of util.c over a descriptor, those over children, directory entries and waits,
-- and the main loops run as long as the kernel has something for them, and take fuel that bounds
-- their rounds; for those of util.c theorems tell how much is enough. The loop over a path's
-- components is given the path's length and one, which is enough. Every other loop is over a list
-- or counts to a constant. Machine integers wrap where the source relies on it: the byte `insn`
-- and the 32-bit distance of bpf_resolve_jumps, the count of netLimitConns, the products of
-- cmdlineParseRLimit, numbers of options, and descriptors read from a directory.
--
-- Log: logInitLogFile says where the log goes, and Line which texts logLog writes there; the models
-- of the other files leave their log messages out, but for the exit that LOG_F ends with.
--
-- Not modelled: that printing takes place, since what is printed is a text here, and utilMalloc.
-- The instruction set is that of a little-endian 64-bit machine.
pub mod Common
pub mod Os
pub mod Conf
pub mod Seccomp
pub mod Util
pub mod Sandbox
pub mod Mount
pub mod Contain
pub mod Net
pub mod Cgroup
pub mod User
pub mod Log
pub mod Cmdline
pub mod Subproc
pub mod Nsjail
pub mod Tests
