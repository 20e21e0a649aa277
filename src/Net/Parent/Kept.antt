-- ===== src/Net/Parent/Kept.antt =====
-- net.c: setting up the network from outside executes no program by `execv`: the child of
-- `netSystemSbinIp` runs `ip` by `execve`.
use nsjail.Common.{
  zero, suc, ◌||◌, ℕ, Bool, true, false, Option, none, some, List, ◌==◌, if◌then◌else◌,
}
use nsjail.Common.Int.{ℤ, pos}
use nsjail.Os.{kill, exit, replaced, ◌>>◌, Reply, fail, done, pure, sys}
use nsjail.Os.Quiet.{
  Quiet, Quiet-pure, Quiet-exit, Quiet-replaced, Quiet-out_of_fuel, Quiet-bind, quiet_rules,
}
use nsjail.Conf.{NsjConf}
use nsjail.Os.Wait.{wait_for, wait_for-Quiet}
use nsjail.Os.Status.{wifexited, wexitstatus, wifsignaled}
use nsjail.Net.Parent.{
  goes_on, await_ip, ip_forked, net_system_sbin_ip, macvlan, net_init_ns_from_parent,
}

await_ip-Quiet : (fuel waits pid : ℕ) → Quiet (await_ip fuel waits pid)
unfolding await_ip
await_ip-Quiet zero waits pid = Quiet-out_of_fuel
await_ip-Quiet (suc fuel) waits pid =
    Quiet-bind (wait_for waits pid) _ (wait_for-Quiet waits pid)
      (λ status. go status (wifexited status || wifsignaled status) (await_ip-Quiet fuel waits pid))
  where
    go :
        (status : ℕ) (ended : Bool)
        → Quiet (await_ip fuel waits pid)
        → Quiet (elim ended [
          | true ↦ pure (if wifexited status then wexitstatus status == 0 else false)
          | false ↦
              (if goes_on status then pure tt else sys (kill (pos pid) 9) >> pure (tt {0}))
              >> await_ip fuel waits pid
        ])
    go status true ih = Quiet-pure _
    go status false ih = search quiet_rules

ip_forked-Quiet : (fuel : ℕ) (argv : List (List ℕ)) (r : Reply) → Quiet (ip_forked fuel argv r)
unfolding ip_forked
ip_forked-Quiet fuel argv (fail e) = Quiet-pure false
ip_forked-Quiet fuel argv (done zero out) = search (quiet_rules, executed)
  where
    executed :
        (r : Reply)
        → Quiet {A = Bool} (elim r [ fail e ↦ exit 1 | done n out ↦ λ w. (replaced, w) ])
    executed (fail e) = Quiet-exit 1
    executed (done n out) = Quiet-replaced
ip_forked-Quiet fuel argv (done (suc n) out) = await_ip-Quiet fuel fuel (suc n)

macvlan-Quiet :
    (fuel : ℕ) (conf : NsjConf) (pid : ℤ) (iface : Option (List ℕ))
    → Quiet (macvlan fuel conf pid iface)
unfolding macvlan net_system_sbin_ip
macvlan-Quiet fuel conf pid none = Quiet-pure true
macvlan-Quiet fuel conf pid (some iface) = search (quiet_rules, ip_forked-Quiet)

pub net_init_ns_from_parent-Quiet :
    (fuel : ℕ) (conf : NsjConf) (pid : ℤ) → Quiet (net_init_ns_from_parent fuel conf pid)
unfolding net_init_ns_from_parent
net_init_ns_from_parent-Quiet fuel conf pid = search (quiet_rules, macvlan-Quiet)
