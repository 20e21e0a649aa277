-- ===== src/Mount/Tests.antt =====
-- A jail of which only the root is mounted, read-only.
use nsjail.Common.{◌≡◌, refl, true, none, [], ◌∷◌}
use nsjail.Common.Text.{bytes}
use nsjail.Os.{value}
use nsjail.Conf.{NsjConf}
use nsjail.Tests.Worlds.{conf, start}
use nsjail.Mount.{
  mount_init_ns_internal, mount_all, leave_old_root, remount_all, mount_remount_ro, remount,
}
use nsjail.Mount.Readonly.{Sealed, mount_init_ns_internal-Sealed}

abbrev jail : NsjConf
jail = record conf {
  pivot_root_only = true;
  mountpts =
      record { src = none; dst = bytes "/"; fs_type = bytes "tmpfs"; options = []; flags = 1 } ∷ [];
}

set_up : (mount_init_ns_internal jail start).0 ≡ value true
unfolding mount_init_ns_internal mount_all leave_old_root remount_all mount_remount_ro remount
set_up = refl

mount_init_ns_internal-Sealed_example : Sealed jail (mount_init_ns_internal jail start).1.log
mount_init_ns_internal-Sealed_example = mount_init_ns_internal-Sealed jail start refl set_up
