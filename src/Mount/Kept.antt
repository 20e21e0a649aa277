-- ===== src/Mount/Kept.antt =====
-- mount.c: mounting executes no program, and undoes no call that was made before.
use nsjail.Common.{
  ℕ, zero, suc, if◌then◌else◌, Bool, true, false, ◌&&◌, Option, none, some, List, [], ◌∷◌,
}
use nsjail.Common.Text.{bytes, eq_bytes}
use nsjail.Os.{succeeds, pure, CString, Reply, fail, done}
use nsjail.Os.Quiet.{Quiet, Quiet-and_then, Quiet-pure, quiet_rules}
use nsjail.Conf.{NsjConf, MountPt}
use nsjail.Util.Dirs.Kept.{util_create_dir_recursively-Quiet}
use nsjail.Os.Wait.{wait_for-Quiet}
use nsjail.Mount.{
  remount, mount_remount_ro, remount_all, leave_old_root, chroot_to, mount_init_ns_internal,
  mount_cloned, mount_init_ns, mount_is_dir, mount_not_is_dir, joined, make_dir, close_opened,
  make_file, mount_mount, mount_all,
}

mount_is_dir-Quiet : (path : Option CString) → Quiet (mount_is_dir path)
unfolding mount_is_dir
mount_is_dir-Quiet none = Quiet-pure true
mount_is_dir-Quiet (some path) = search quiet_rules

mount_not_is_dir-Quiet : (path : Option CString) → Quiet (mount_not_is_dir path)
unfolding mount_not_is_dir
mount_not_is_dir-Quiet none = Quiet-pure false
mount_not_is_dir-Quiet (some path) = search quiet_rules

make_dir-Quiet : (b : Bool) (dst : CString) → Quiet (make_dir b dst)
unfolding make_dir
make_dir-Quiet false dst = Quiet-pure true
make_dir-Quiet true dst = search (quiet_rules, util_create_dir_recursively-Quiet)

close_opened-Quiet : (r : Reply) → Quiet (close_opened r)
unfolding close_opened
close_opened-Quiet (fail e) = Quiet-pure true
close_opened-Quiet (done fd out) = search quiet_rules

make_file-Quiet : (b : Bool) (dst : CString) → Quiet (make_file b dst)
unfolding make_file
make_file-Quiet false dst = Quiet-pure true
make_file-Quiet true dst =
    search (quiet_rules, util_create_dir_recursively-Quiet, close_opened-Quiet)

mount_mount-Quiet : (p : MountPt) (oldroot dst : CString) → Quiet (mount_mount p oldroot dst)
unfolding mount_mount
mount_mount-Quiet p oldroot dst =
    search
      (quiet_rules, mount_is_dir-Quiet, mount_not_is_dir-Quiet, make_dir-Quiet, make_file-Quiet)
      depth 9

pub mount_all-Quiet :
    (pivot_root_only : Bool) (newroot : CString) (ps : List MountPt)
    → Quiet (mount_all pivot_root_only newroot ps)
unfolding mount_all
mount_all-Quiet pivot_root_only newroot [] = Quiet-pure true
mount_all-Quiet pivot_root_only newroot (p ∷ ps) =
    Quiet-and_then
      (if pivot_root_only && eq_bytes p.dst (bytes "/")
        then pure true
        else mount_mount p (bytes "/old_root") (joined newroot p.dst))
      _ (search (quiet_rules, mount_mount-Quiet)) (mount_all-Quiet pivot_root_only newroot ps)

remount-Quiet : (p : MountPt) (r : Reply) → Quiet (remount p r)
unfolding remount
remount-Quiet p (fail e) = Quiet-pure false
remount-Quiet p (done n out) = search quiet_rules

mount_remount_ro-Quiet : (p : MountPt) → Quiet (mount_remount_ro p)
unfolding mount_remount_ro
mount_remount_ro-Quiet p = search (quiet_rules, remount-Quiet)

pub remount_all-Quiet : (ps : List MountPt) → Quiet (remount_all ps)
unfolding remount_all
remount_all-Quiet [] = Quiet-pure true
remount_all-Quiet (p ∷ ps) =
    Quiet-and_then (mount_remount_ro p) _ (mount_remount_ro-Quiet p) (remount_all-Quiet ps)

pub leave_old_root-Quiet :
    (conf : NsjConf) (newroot : CString) → Quiet (leave_old_root conf newroot)
unfolding leave_old_root
leave_old_root-Quiet conf newroot = search (quiet_rules, remount_all-Quiet) depth 9

chroot_to-Quiet : (dir : Option CString) → Quiet (succeeds (chroot_to dir))
chroot_to-Quiet none = search quiet_rules
chroot_to-Quiet (some dir) = search quiet_rules

mount_init_ns_internal-Quiet : (conf : NsjConf) → Quiet (mount_init_ns_internal conf)
unfolding mount_init_ns_internal
mount_init_ns_internal-Quiet conf =
    search (quiet_rules, chroot_to-Quiet, mount_all-Quiet, leave_old_root-Quiet) depth 16

mount_cloned-Quiet : (fuel : ℕ) (conf : NsjConf) (r : Reply) → Quiet (mount_cloned fuel conf r)
unfolding mount_cloned
mount_cloned-Quiet fuel conf (fail e) = Quiet-pure false
mount_cloned-Quiet fuel conf (done zero out) = search (quiet_rules, mount_init_ns_internal-Quiet)
mount_cloned-Quiet fuel conf (done (suc n) out) = search (quiet_rules, wait_for-Quiet)

pub mount_init_ns-Quiet : (fuel : ℕ) (conf : NsjConf) → Quiet (mount_init_ns fuel conf)
unfolding mount_init_ns
mount_init_ns-Quiet fuel conf =
    search (quiet_rules, mount_cloned-Quiet, mount_init_ns_internal-Quiet)
