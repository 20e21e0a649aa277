-- ===== src/Net/Iface/Tests.antt =====
-- The loopback interface of a jail.
use nsjail.Common.{◌≡◌, refl, true}
use nsjail.Common.Int.{pos}
use nsjail.Os.{value}
use nsjail.Os.Descriptors.{Closed}
use nsjail.Tests.Worlds.{conf, start}
use nsjail.Net.Iface.{net_init_ns_from_child, net_iface_up, bring_up}
use nsjail.Net.Iface.Sockets.{net_init_ns_from_child-closes}

lo_up : (net_init_ns_from_child conf start).0 ≡ value true
unfolding net_init_ns_from_child net_iface_up bring_up
lo_up = refl

net_init_ns_from_child-closes_example :
    Closed 0 (pos 0) start.log (net_init_ns_from_child conf start).1.log
net_init_ns_from_child-closes_example = net_init_ns_from_child-closes conf start true (pos 0) lo_up
