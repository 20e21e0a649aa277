-- ===== src/Mount.antt =====
-- mount.c: the file systems of the jail.
mod Tests
pub mod Kept
pub mod Readonly
use Prim.Native.Nat.{bit_or}
use nsjail.Common.{
  ℕ, zero, suc, ◌+◌, ◌-◌, ◌/◌, ◌%◌, Bool, true, false, not, ◌&&◌, Option, none, some, List, [], ◌∷◌,
  ◌++◌, get_or, ◌==◌, if◌then◌else◌,
}
use nsjail.Common.Int.{ℤ, pos}
use nsjail.Common.Text.{bytes, snprintf, path_max, eq_bytes}
use nsjail.Os.{
  CString, Syscall, chroot_null, stat, statvfs, mkdir, open_file, close, mount, umount2, chroot,
  chdir, pivot_root, rmdir, clone, wait4, Reply, fail, done, Action, pure, exit, out_of_fuel, sys,
  succeeds, failed, errno_of, result_of, out_of, ◌>>=◌, ◌>>◌, ◌and_then◌,
}
use nsjail.Conf.{NsjConf, MountPt, is_execve}
use nsjail.Util.Dirs.{util_create_dir_recursively}
use nsjail.Os.Wait.{wait_for}
use nsjail.Os.Status.{wifexited, wexitstatus}

-- S_ISDIR: the format bits of `st_mode`, which `stat` writes.
abbrev pub s_isdir : Reply → Bool
s_isdir r = get_or (out_of r) 0 0 / 4096 % 16 == 4

unfoldable pub mount_is_dir : Option CString → Action Bool
mount_is_dir none = pure true
mount_is_dir (some path) = do r ← sys (stat path); pure (not (failed r) && s_isdir r)

unfoldable pub mount_not_is_dir : Option CString → Action Bool
mount_not_is_dir none = pure false
mount_not_is_dir (some path) = do r ← sys (stat path); pure (not (failed r) && not (s_isdir r))

abbrev pub joined : CString → CString → CString
joined dir name = snprintf path_max (dir ++ (b'/' ∷ name))

abbrev pub source_in : CString → Option CString → Option CString
source_in oldroot none = none
source_in oldroot (some src) = some (joined oldroot src)

make_dir : Bool → CString → Action Bool
make_dir false dst = pure true
make_dir true dst = util_create_dir_recursively dst and_then (sys (mkdir dst 0o711) >> pure true)

-- O_CREAT | O_RDONLY | O_CLOEXEC
abbrev o_creat : ℕ
o_creat = 0o2000100

close_opened : Reply → Action Bool
close_opened (fail e) = pure true
close_opened (done fd out) = sys (close (pos fd)) >> pure true

make_file : Bool → CString → Action Bool
unfolding close_opened
make_file false dst = pure true
make_file true dst =
    util_create_dir_recursively dst and_then (sys (open_file dst o_creat) >>= close_opened)

-- `flags & ~MS_RDONLY`: MS_RDONLY is the lowest bit.
abbrev pub is_rdonly : ℕ → Bool
is_rdonly flags = flags % 2 == 1

abbrev pub as_rw : ℕ → ℕ
as_rw flags = flags - flags % 2

unfoldable pub mount_mount : MountPt → CString → CString → Action Bool
unfolding make_dir make_file
mount_mount mpt oldroot dst =
    let src = source_in oldroot mpt.src in
    (mount_is_dir src >>= λ d. make_dir d dst)
    and_then (mount_not_is_dir src >>= λ f. make_file f dst)
    and_then succeeds (mount src dst (some mpt.fs_type) (as_rw mpt.flags) (some mpt.options))

-- MS_BIND | MS_REMOUNT | MS_RDONLY
abbrev pub ms_remount_ro : ℕ
ms_remount_ro = 4096 + 32 + 1

-- `f_flag`, which `statvfs` writes.
abbrev pub f_flag : Reply → ℕ
f_flag r = get_or (out_of r) 0 0

remount : MountPt → Reply → Action Bool
remount mpt (fail e) = pure false
remount mpt (done n out) =
    if is_rdonly mpt.flags
    then succeeds
        (mount (some mpt.dst) mpt.dst none (bit_or ms_remount_ro (f_flag (done n out))) none)
    else pure true

unfoldable pub mount_remount_ro : MountPt → Action Bool
unfolding remount
mount_remount_ro mpt = sys (statvfs mpt.dst) >>= remount mpt

-- The loop that mounts. `strcmp(p->dst, "/") == 0` is left alone if the root is only pivoted.
unfoldable pub mount_all : Bool → CString → List MountPt → Action Bool
mount_all pivot_root_only newroot [] = pure true
mount_all pivot_root_only newroot (p ∷ ps) =
    (if pivot_root_only && eq_bytes p.dst (bytes "/")
      then pure true
      else mount_mount p (bytes "/old_root") (joined newroot p.dst))
    and_then mount_all pivot_root_only newroot ps

unfoldable pub remount_all : List MountPt → Action Bool
remount_all [] = pure true
remount_all (p ∷ ps) = mount_remount_ro p and_then remount_all ps

abbrev pub chroot_to : Option CString → Syscall
chroot_to none = chroot_null
chroot_to (some dir) = chroot dir

-- MNT_DETACH is 2.
pub leave_old_root : NsjConf → CString → Action Bool
leave_old_root conf newroot =
    succeeds (umount2 (bytes "/old_root") 2)
    and_then (if conf.pivot_root_only
        then succeeds (rmdir (bytes "/old_root"))
        else succeeds (chroot newroot))
    and_then succeeds (chdir conf.cwd)
    and_then remount_all conf.mountpts

abbrev pub new_root : NsjConf → CString
new_root conf = if conf.pivot_root_only then bytes "/" else bytes "/new_root"

unfoldable pub mount_init_ns_internal : NsjConf → Action Bool
unfolding leave_old_root
mount_init_ns_internal conf =
    if not conf.clone_newns
    then succeeds (chroot_to conf.chroot) and_then succeeds (chdir (bytes "/"))
    else succeeds (mount none (bytes "/tmp") (some (bytes "tmpfs")) 0 none)
      and_then succeeds (mkdir (bytes "/tmp/old_root") 0o755)
      and_then succeeds (pivot_root (bytes "/tmp") (bytes "/tmp/old_root"))
      and_then succeeds (chdir (bytes "/"))
      and_then (if conf.pivot_root_only then pure true else succeeds (mkdir (new_root conf) 0o755))
      and_then mount_all conf.pivot_root_only (new_root conf) conf.mountpts
      and_then leave_old_root conf (new_root conf)

-- After `clone`, in the child, which exits, and in the parent.
mount_cloned : ℕ → NsjConf → Reply → Action Bool
mount_cloned fuel conf (fail e) = pure false
mount_cloned fuel conf (done zero out) = do
  ok ← mount_init_ns_internal conf
  if ok then exit 0 else exit 1
mount_cloned fuel conf (done (suc n) out) = do
  status ← wait_for fuel (suc n)
  pure (wifexited status && wexitstatus status == 0)

-- CLONE_FS | SIGCHLD
unfoldable pub mount_init_ns : ℕ → NsjConf → Action Bool
unfolding mount_cloned
mount_init_ns fuel conf =
    if is_execve conf.mode
    then sys (clone (0x200 + 17)) >>= mount_cloned fuel conf
    else mount_init_ns_internal conf
