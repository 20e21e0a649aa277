-- ===== src/Net/Iface/Kept.antt =====
-- net.c: setting up the interfaces undoes no call that was made before.
use nsjail.Common.{ℕ, Bool, false, List}
use nsjail.Common.Int.{ℤ, pos}
use nsjail.Os.{CString, Reply, fail, done, socket, Action, pure, sys}
use nsjail.Os.Quiet.{Quiet, Quiet-pure, Quiet-bind, quiet_rules}
use nsjail.Conf.{NsjConf}
use nsjail.Net.Iface.{
  pton_or_close, with_socket, bring_up, net_iface_up, add_gateway, up_and_gateway, set_address,
  net_configure_vs, net_init_ns_from_child, iface_name,
}

with_socket-Quiet :
    (rest : ℤ → Action Bool) → ((sock : ℤ) → Quiet (rest sock)) → Quiet (with_socket rest)
with_socket-Quiet rest g = Quiet-bind (sys (socket 2)) _ (search quiet_rules) opened
  where
    opened : (r : Reply) → Quiet (elim r [ fail e ↦ pure false | done s out ↦ rest (pos s) ])
    opened (fail e) = Quiet-pure false
    opened (done s out) = g (pos s)

bring_up-Quiet : (name : CString) (sock : ℤ) → Quiet (bring_up name sock)
unfolding bring_up
bring_up-Quiet name sock = search quiet_rules depth 12

net_iface_up-Quiet : (name : CString) → Quiet (net_iface_up name)
unfolding net_iface_up
net_iface_up-Quiet name = with_socket-Quiet _ (bring_up-Quiet (iface_name name))

up_and_gateway-Quiet : (conf : NsjConf) (sock : ℤ) → Quiet (up_and_gateway conf sock)
unfolding up_and_gateway add_gateway
up_and_gateway-Quiet conf sock = search (quiet_rules, net_iface_up-Quiet) depth 16

set_address-Quiet : (conf : NsjConf) (sock : ℤ) (addr : List ℕ) → Quiet (set_address conf sock addr)
unfolding set_address
set_address-Quiet conf sock addr = search (quiet_rules, up_and_gateway-Quiet) depth 16

net_configure_vs-Quiet : (conf : NsjConf) → Quiet (net_configure_vs conf)
unfolding net_configure_vs
net_configure_vs-Quiet conf =
    with_socket-Quiet (λ sock. pton_or_close sock conf.iface_vs_ip (set_address conf sock))
      (λ sock. search (quiet_rules, set_address-Quiet))

pub net_init_ns_from_child-Quiet : (conf : NsjConf) → Quiet (net_init_ns_from_child conf)
unfolding net_init_ns_from_child
net_init_ns_from_child-Quiet conf = search (quiet_rules, net_iface_up-Quiet, net_configure_vs-Quiet)
