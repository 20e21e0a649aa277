-- ===== src/Mount/Readonly.antt =====
-- mount.c: what holds of the mounts once the file system of the jail is set up.
use Prim.Native.Nat.{bit_or}
use nsjail.Common.{ℕ, ◌≡◌, Bool, true, false, not, none, some, List, [], ◌∷◌, arith, if◌then◌else◌}
use nsjail.Common.Text.{bytes}
use nsjail.Os.{
  CString, Syscall, statvfs, mount, umount2, chroot, chdir, rmdir, mkdir, pivot_root, Reply, fail,
  done, Event, World, value, Action, pure, sys, succeeds, ◌and_then◌,
}
use nsjail.Os.Quiet.{Quiet, Quiet-and_then, quiet_rules}
use nsjail.Os.Done.{Did, Makes, IsStable, Makes-first, Makes-second, Makes-both, Makes-succeeds}
use nsjail.Conf.{NsjConf, MountPt}
use nsjail.Mount.Kept.{mount_all-Quiet, remount_all-Quiet, leave_old_root-Quiet}
use nsjail.Mount.{
  is_rdonly, f_flag, ms_remount_ro, remount, mount_remount_ro, remount_all, mount_all,
  leave_old_root, new_root, mount_init_ns_internal,
}

-- The mount has been mounted again with MS_RDONLY and the flags that its file system had.
abbrev pub Remounted : Bool → MountPt → List Event → Type 0
Remounted false p log = Unit {0}
Remounted true p log =
    (flags : ℕ) × Did (mount (some p.dst) p.dst none (bit_or ms_remount_ro flags) none) log

-- The mount is read-only, if it is to be.
abbrev pub Protected : MountPt → List Event → Type 0
Protected p log = Remounted (is_rdonly p.flags) p log

abbrev pub AllProtected : List MountPt → List Event → Type 0
AllProtected [] log = Unit {0}
AllProtected (p ∷ ps) log = Protected p log × AllProtected ps log

pub Remounted-IsStable : (b : Bool) (p : MountPt) → IsStable (Remounted b p)
Remounted-IsStable false p before after more h = tt
Remounted-IsStable true p before after more (flags, d) = (flags, more _ d)

protect :
    (p : MountPt) (flags : ℕ) (b : Bool)
    → Makes (Remounted b p) (
        if b
        then succeeds (mount (some p.dst) p.dst none (bit_or ms_remount_ro flags) none)
        else pure true)
protect p flags true = record { at = λ w h. (flags, (Makes-succeeds _).at w h) }
protect p flags false = record { at = λ w h. tt }

remount-Makes : (p : MountPt) (r : Reply) → Makes (Protected p) (remount p r)
unfolding remount
remount-Makes p (fail e) = record { at = λ w h. absurd (ground arith) }
remount-Makes p (done n out) = protect p (f_flag (done n out)) (is_rdonly p.flags)

mount_remount_ro-Makes : (p : MountPt) → Makes (Protected p) (mount_remount_ro p)
unfolding mount_remount_ro
mount_remount_ro-Makes p = record {
  at = λ w h. (remount-Makes p (w.kernel w.log (statvfs p.dst))).at (sys (statvfs p.dst) w).1 h;
}

remount_all-Makes : (ps : List MountPt) → Makes (AllProtected ps) (remount_all ps)
unfolding remount_all
remount_all-Makes [] = record { at = λ w h. tt }
remount_all-Makes (p ∷ ps) =
    Makes-both (Protected p) (AllProtected ps) (mount_remount_ro p and_then remount_all ps)
      (Makes-first (Protected p) (Remounted-IsStable (is_rdonly p.flags) p) (mount_remount_ro p)
        (remount_all ps) (mount_remount_ro-Makes p) (remount_all-Quiet ps))
      (Makes-second (AllProtected ps) (mount_remount_ro p) (remount_all ps) (remount_all-Makes ps))

-- How the jail gets away from the old root: what was below it becomes the root, or only the old
-- root's place is removed.
abbrev pub leave : NsjConf → Syscall
leave conf = if conf.pivot_root_only then rmdir (bytes "/old_root") else chroot (new_root conf)

-- The old root is detached and left, and the read-only mounts are protected.
abbrev Left : NsjConf → List Event → Type 0
Left conf log =
    Did (umount2 (bytes "/old_root") 2) log
    × (Did (leave conf) log × AllProtected conf.mountpts log)

abbrev pivot : Syscall
pivot = pivot_root (bytes "/tmp") (bytes "/tmp/old_root")

-- The jail is confined to its mounts: its root is another one, the old root is detached and left,
-- and the read-only mounts are protected.
abbrev pub Sealed : NsjConf → List Event → Type 0
Sealed conf log = Did pivot log × Left conf log

enters :
    (b : Bool) (newroot : CString)
    → Makes
        (Did (if b then rmdir (bytes "/old_root") else chroot newroot))
        (if b then succeeds (rmdir (bytes "/old_root")) else succeeds (chroot newroot))
enters true newroot = Makes-succeeds _
enters false newroot = Makes-succeeds _

Did-IsStable : (c : Syscall) → IsStable (Did c)
Did-IsStable c before after more d = more c d

leave_old_root-Makes : (conf : NsjConf) → Makes (Left conf) (leave_old_root conf (new_root conf))
unfolding leave_old_root
leave_old_root-Makes conf =
    let newroot = new_root conf in
    let detached = Did (umount2 (bytes "/old_root") 2) in
    let detach = succeeds (umount2 (bytes "/old_root") 2) in
    let enter =
      if conf.pivot_root_only
      then succeeds (rmdir (bytes "/old_root"))
      else succeeds (chroot newroot) in
    let cd = succeeds (chdir conf.cwd) in
    let last = remount_all conf.mountpts in
    let rest-Quiet : Quiet (cd and_then last) = search (quiet_rules, remount_all-Quiet) in
    Makes-both detached (λ log. Did (leave conf) log × AllProtected conf.mountpts log) _
      (Makes-first detached (Did-IsStable _) detach (enter and_then cd and_then last)
        (Makes-succeeds _)
        (Quiet-and_then enter (cd and_then last) (search quiet_rules) rest-Quiet))
      (Makes-second _ detach (enter and_then cd and_then last) (
        Makes-both (Did (leave conf)) (AllProtected conf.mountpts) (enter and_then cd and_then last)
          (Makes-first (Did (leave conf)) (Did-IsStable _) enter (cd and_then last)
            (enters conf.pivot_root_only newroot) rest-Quiet)
          (Makes-second _ enter (cd and_then last)
            (Makes-second _ cd last (remount_all-Makes conf.mountpts)))))

unless :
    {P : List Event → Type 0} (b : Bool) (m n : Action Bool)
    → b ≡ true
    → Makes P n
    → Makes P (if not b then m else n)
unless true m n e mn = mn
unless false m n e mn = absurd (ground arith)

pub mount_init_ns_internal-Makes :
    (conf : NsjConf) → conf.clone_newns ≡ true → Makes (Sealed conf) (mount_init_ns_internal conf)
unfolding mount_init_ns_internal
mount_init_ns_internal-Makes conf own =
    let newroot = new_root conf in
    let tmp = succeeds (mount none (bytes "/tmp") (some (bytes "tmpfs")) 0 none) in
    let old = succeeds (mkdir (bytes "/tmp/old_root") 0o755) in
    let turn = succeeds pivot in
    let cd = succeeds (chdir (bytes "/")) in
    let new = if conf.pivot_root_only then pure true else succeeds (mkdir newroot 0o755) in
    let mounts = mount_all conf.pivot_root_only newroot conf.mountpts in
    let out = leave_old_root conf newroot in
    let rest = cd and_then new and_then mounts and_then out in
    let P = Sealed conf in
    unless conf.clone_newns _ _ own (
      Makes-second P tmp (old and_then turn and_then rest) (
        Makes-second P old (turn and_then rest) (
          Makes-both (Did pivot) (Left conf) (turn and_then rest)
            (Makes-first (Did pivot) (Did-IsStable pivot) turn rest (Makes-succeeds pivot)
              (search (quiet_rules, mount_all-Quiet, leave_old_root-Quiet) depth 9))
            (Makes-second (Left conf) turn rest (
              Makes-second (Left conf) cd (new and_then mounts and_then out) (
                Makes-second (Left conf) new (mounts and_then out)
                  (Makes-second (Left conf) mounts out (leave_old_root-Makes conf))))))))

-- If `mountInitNsInternal` returns true for a jail with its own mount namespace, `pivot_root` has
-- given it another root, the old root has been detached and left, by `chroot` or, if the root is only pivoted, by `rmdir`, and every mount
-- that is to be read-only, `/` included, has been remounted read-only.
pub mount_init_ns_internal-Sealed :
    (conf : NsjConf) (w : World)
    → conf.clone_newns ≡ true
    → (mount_init_ns_internal conf w).0 ≡ value true
    → Sealed conf (mount_init_ns_internal conf w).1.log
mount_init_ns_internal-Sealed conf w own h = (mount_init_ns_internal-Makes conf own).at w h
