-- ===== src/Subproc/Child/Sealed.antt =====
-- subproc.c: a program is executed only in a jail whose mounts are sealed.
use mathlib.Core.Path.{subst}
use nsjail.Common.{ℕ, ◌≡◌, sym, ap, Bool, true, false, List, [], ◌∷◌, arith, if◌then◌else◌}
use nsjail.Common.Int.{ℤ}
use nsjail.Os.{Event, World, value, Action, pure, exit}
use nsjail.Os.Quiet.{Quiet-bind, quiet_rules}
use nsjail.Os.Laws.{>>=-eq-value, >>=-value}
use nsjail.Os.Done.{Makes, IsStable, Makes-first, Makes-second, Leaves, Leaves-first, Leaves-second}
use nsjail.Conf.{NsjConf, MountPt, is_execve}
use nsjail.Mount.{mount_init_ns, is_rdonly}
use nsjail.Mount.Readonly.{Sealed, AllProtected, Remounted-IsStable, mount_init_ns_internal-Makes}
use nsjail.Net.Iface.Kept.{net_init_ns_from_child-Quiet}
use nsjail.Contain.{pid_init_ns, cgroup_init_ns, contain_setup_fd, contain_contain}
use nsjail.Contain.Kept.{uts_init_ns-Quiet, confine-Quiet}
use nsjail.Sandbox.{sandbox_apply}
use nsjail.Sandbox.Kept.{sandbox_apply-Quiet}
use nsjail.Subproc.Child.Kept.{set_env-Quiet}
use nsjail.Subproc.Child.{or_exit, set_env, prepare_proc, init_namespaces}

pub or_exit-Leaves : (P : List Event → Type 0) (m : Action Bool) → Makes P m → Leaves P (or_exit m)
or_exit-Leaves P m mm = record {
  at = λ w b h.
      let go : Bool → Action (Unit {0}) = λ ok. if ok then pure tt else exit 1 in
      let (ok, first, second) = >>=-eq-value go b m w h in
      subst (λ r. P r.1.log) (sym (>>=-value go m w ok (m w).1 (ap (λ r. (r, (m w).1)) first)))
        (passed ok w first second);
}
  where
    passed :
        (ok : Bool) (w : World) {b : Unit {0}}
        → (m w).0 ≡ value ok
        → ((if ok then pure tt else exit 1) (m w).1).0 ≡ value b
        → P ((if ok then pure tt else exit 1) (m w).1).1.log
    passed true w first second = mm.at w first
    passed false w first second = absurd (ground arith)

AllProtected-IsStable : (ps : List MountPt) → IsStable (AllProtected ps)
AllProtected-IsStable [] before after more h = tt
AllProtected-IsStable (p ∷ ps) before after more (h, hs) = (
  Remounted-IsStable (is_rdonly p.flags) p before after more h,
  AllProtected-IsStable ps before after more hs,
)

Sealed-IsStable : (conf : NsjConf) → IsStable (Sealed conf)
Sealed-IsStable conf before after more (pivoted, (detached, (left, ps))) = (
  more _ pivoted,
  (more _ detached, (more _ left, AllProtected-IsStable conf.mountpts before after more ps)),
)

clone_mode :
    {P : List Event → Type 0} (b : Bool) (m n : Action Bool)
    → b ≡ false
    → Makes P n
    → Makes P (if b then m else n)
clone_mode false m n e mn = mn
clone_mode true m n e mn = absurd (ground arith)

mount_init_ns-Makes :
    (fuel : ℕ) (conf : NsjConf)
    → is_execve conf.mode ≡ false
    → conf.clone_newns ≡ true
    → Makes (Sealed conf) (mount_init_ns fuel conf)
unfolding mount_init_ns
mount_init_ns-Makes fuel conf clones own =
    clone_mode (is_execve conf.mode) _ _ clones (mount_init_ns_internal-Makes conf own)

contain_contain-Makes :
    (fuel : ℕ) (conf : NsjConf)
    → is_execve conf.mode ≡ false
    → conf.clone_newns ≡ true
    → Makes (Sealed conf) (contain_contain fuel conf)
unfolding contain_contain cgroup_init_ns
contain_contain-Makes fuel conf clones own = Makes-second (Sealed conf) (pid_init_ns conf) _ (
    Makes-first (Sealed conf) (Sealed-IsStable conf) (mount_init_ns fuel conf) _
      (mount_init_ns-Makes fuel conf clones own)
      (search (quiet_rules, net_init_ns_from_child-Quiet, uts_init_ns-Quiet, confine-Quiet) depth
        9))

-- In the modes that clone a child, with a mount namespace of its own, `subprocNewProc` comes to its
-- `execv` only after `pivot_root` has given it another root, the old root has been detached and
-- left and every mount that is to be read-only has been remounted read-only, whatever the kernel
-- has answered.
pub prepare_proc-Sealed :
    (fuel : ℕ) (conf : NsjConf) (fd_in fd_out fd_err pipefd : ℤ) (w : World)
    → is_execve conf.mode ≡ false
    → conf.clone_newns ≡ true
    → (prepare_proc fuel conf fd_in fd_out fd_err pipefd w).0 ≡ value tt
    → Sealed conf (prepare_proc fuel conf fd_in fd_out fd_err pipefd w).1.log
unfolding prepare_proc
prepare_proc-Sealed fuel conf fd_in fd_out fd_err pipefd w clones own h =
    (Leaves-second (or_exit (contain_setup_fd conf fd_in fd_out fd_err)) _ (
        Leaves-second (init_namespaces fuel conf pipefd) _ (
          Leaves-first (or_exit (contain_contain fuel conf)) _ (Sealed-IsStable conf)
            (or_exit-Leaves (Sealed conf) (contain_contain fuel conf)
              (contain_contain-Makes fuel conf clones own))
            (Quiet-bind (set_env conf) (λ _. or_exit (sandbox_apply conf)) (set_env-Quiet conf)
              (search (quiet_rules, sandbox_apply-Quiet)))))).at
      w tt h
