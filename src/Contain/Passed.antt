-- ===== src/Contain/Passed.antt =====
-- contain.c: the descriptors that `containContain` leaves for the program.
use mathlib.Core.Path.{subst}
use mathlib.Core.List.{append_assoc}
use nsjail.Common.{◌++◌, Bool, ℕ, ◌^◌, ◌<◌, ◌≡◌, refl, sym, ap, ◌∙◌, true, false, List, []}
use nsjail.Os.{CString, Event, Kernel, Action, World, value, strtoul, done, ◌and_then◌}
use nsjail.Os.Quiet.{Quiet, added, same_kernel}
use nsjail.Os.Done.{and_then-true}
use nsjail.Conf.{NsjConf}
use nsjail.Mount.Kept.{mount_init_ns-Quiet}
use nsjail.Net.Iface.Kept.{net_init_ns_from_child-Quiet}
use nsjail.Contain.{is_dots, contain_contain, contain_make_fds_coe}
use nsjail.Contain.Kept.{
  uts_init_ns-Quiet, pid_init_ns-Quiet, cgroup_init_ns-Quiet, contain_drop_privs-Quiet,
  contain_set_limits-Quiet, contain_prepare_env-Quiet,
}
use nsjail.Contain.Settled.{IsSettled, IsSettled-earlier, contain_make_fds_coe-IsSettled}

-- On the kernel `k`, with calls added to `start`, when `m` has returned true, `P` holds of the log.
record Leaves (k : Kernel) (start : List Event) (P : List Event → Type 0) (m : Action Bool)
    : Type 0 where
  at :
      (w : World) (mid : List Event)
      → w.kernel ≡ k
      → w.log ≡ mid ++ start
      → (m w).0 ≡ value true
      → P (m w).1.log

Leaves-last :
    {k : Kernel} {start : List Event} {P : List Event → Type 0} (m n : Action Bool)
    → Quiet m
    → Leaves k start P n
    → Leaves k start P (m and_then n)
Leaves-last {start} {P} m n q l = record {
  at = λ w mid e s h.
      let (first, same) = and_then-true m n w h in
      let (new, p) = added m q w in
      subst (λ r. P r.1.log) (sym same)
        (l.at (m w).1 (new ++ mid) (same_kernel m q w ∙ e)
          (p ∙ ap (λ t. new ++ t) s ∙ sym (append_assoc new mid start))
          (ap (λ r. r.0) (sym same) ∙ h));
}

-- If `containContain` returns true, then its last calls are in one of two ways. Either they have
-- opened /proc/self/fd and read it to its end, and since it was opened the descriptor has been
-- settled if an entry of its name was found; or they have settled every descriptor below 1024.
-- Settled means that it was seen not to be open, or was given the flag FD_CLOEXEC if it is not to
-- be passed on and was rid of it if it is. That is for a descriptor below 2 ^ 31, while `strtoul`
-- reads the name, which is neither "." nor "..", as its number.
pub contain_contain-IsSettled :
    (conf : NsjConf) (fd : ℕ) (name : CString) (fuel : ℕ) (w : World)
    → fd < 2 ^ 31
    → is_dots name ≡ false
    → ((log : List Event) → w.kernel log (strtoul name 10) ≡ done fd [])
    → (contain_contain fuel conf w).0 ≡ value true
    → IsSettled conf fd name w.log (contain_contain fuel conf w).1.log
unfolding contain_contain
contain_contain-IsSettled conf fd name fuel w small no_dots reads h =
    let P : List Event → Type 0 = IsSettled conf fd name w.log in
    let last : Leaves w.kernel w.log P (contain_make_fds_coe fuel conf) = record {
      at = λ v mid e s t. IsSettled-earlier conf fd name mid w.log _ (
          subst (λ l. IsSettled conf fd name l (contain_make_fds_coe fuel conf v).1.log) s
            (contain_make_fds_coe-IsSettled conf fd name fuel v small no_dots
              (λ log. ap (λ k. k log (strtoul name 10)) e ∙ reads log) t));
    } in
    let whole : Leaves w.kernel w.log P (contain_contain fuel conf) =
      search
        (
          Leaves-last, pid_init_ns-Quiet, mount_init_ns-Quiet, net_init_ns_from_child-Quiet,
          uts_init_ns-Quiet, cgroup_init_ns-Quiet, contain_drop_privs-Quiet,
          contain_set_limits-Quiet, contain_prepare_env-Quiet,
        )
        depth 12 in
    whole.at w [] refl refl h
