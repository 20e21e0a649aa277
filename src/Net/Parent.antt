-- ===== src/Net/Parent.antt =====
-- net.c: the parent's part in a child's network, by /sbin/ip (the build without libnl).
pub mod Kept
use nsjail.Common.{
  ℕ, zero, suc, ◌%◌, Bool, true, false, not, ◌||◌, Option, none, some, List, [], ◌∷◌, ◌==◌,
  if◌then◌else◌,
}
use nsjail.Common.Int.{ℤ, pos}
use nsjail.Common.Text.{bytes, print_ℤ, snprintf}
use nsjail.Os.{
  CString, fork, execve, kill, Reply, fail, done, replaced, Action, pure, exit, out_of_fuel, sys,
  ◌>>=◌, ◌>>◌,
}
use nsjail.Os.Status.{wifexited, wexitstatus, wifsignaled}
use nsjail.Os.Wait.{wait_for}
use nsjail.Conf.{NsjConf}

-- WIFSTOPPED or WIFCONTINUED
abbrev pub goes_on : ℕ → Bool
goes_on status = status % 256 == 127 || status == 0xffff

-- The loop over the child's statuses, in which `fuel` bounds the rounds and the waits of each.
await_ip : ℕ → ℕ → ℕ → Action Bool
await_ip zero waits pid = out_of_fuel
await_ip (suc fuel) waits pid = do
  status ← wait_for waits pid
  elim (wifexited status || wifsignaled status) [
    | true ↦ pure (if wifexited status then wexitstatus status == 0 else false)
    | false ↦
        (if goes_on status then pure tt else sys (kill (pos pid) 9) >> pure (tt {0}))
        >> await_ip fuel waits pid
  ]

ip_forked : ℕ → List CString → Reply → Action Bool
unfolding await_ip
ip_forked fuel argv (fail e) = pure false
ip_forked fuel argv (done zero out) = do
  r ← sys (execve (bytes "/sbin/ip") argv)
  elim r [ fail e ↦ exit 1 | done n out ↦ λ w. (replaced, w) ]
ip_forked fuel argv (done (suc n) out) = await_ip fuel fuel (suc n)

unfoldable pub net_system_sbin_ip : ℕ → NsjConf → List CString → Action Bool
unfolding ip_forked
net_system_sbin_ip fuel conf argv =
    if not conf.clone_newnet then pure false else (sys fork >>= ip_forked fuel argv)

abbrev pub macvlan_argv : CString → ℤ → List CString
macvlan_argv iface pid =
    bytes "ip"
    ∷ bytes "link"
    ∷ bytes "add"
    ∷ bytes "link"
    ∷ iface
    ∷ bytes "name"
    ∷ bytes "vs"
    ∷ bytes "netns"
    ∷ snprintf 256 (print_ℤ pid)
    ∷ bytes "type"
    ∷ bytes "macvlan"
    ∷ bytes "mode"
    ∷ bytes "bridge"
    ∷ []

macvlan : ℕ → NsjConf → ℤ → Option CString → Action Bool
macvlan fuel conf pid none = pure true
macvlan fuel conf pid (some iface) = net_system_sbin_ip fuel conf (macvlan_argv iface pid)

unfoldable pub net_init_ns_from_parent : ℕ → NsjConf → ℤ → Action Bool
unfolding macvlan
net_init_ns_from_parent fuel conf pid =
    if not conf.clone_newnet then pure true else macvlan fuel conf pid conf.iface
