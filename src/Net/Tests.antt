-- ===== src/Net/Tests.antt =====
-- Connections from two addresses that begin with the same byte.
use nsjail.Common.{ℕ, ◌<◌, ◌≡◌, ◌≢◌, refl, List, [], ◌∷◌, Bool, some, true, false, arith}
use nsjail.Common.Int.{pos}
use nsjail.Os.{Kernel, World, getpeername, done, value}
use nsjail.Conf.{NsjConf}
use nsjail.Common.Text.{bytes}
use nsjail.Tests.Worlds.{conf, child, start}
use nsjail.Net.Netlink.{net_init_ns_from_parent}
use nsjail.Net.Netlink.Handles.{nl_cache, Released}
use nsjail.Net.Netlink.Released.{net_init_ns_from_parent-Released}
use nsjail.Net.{net_limit_conns, count_conns, same_addr, net_conn_to_text, net_is_socket}
use nsjail.Net.Limit.{HasPeer, conns_from, net_limit_conns-lt, net_limit_conns_first_byte}

-- Every socket's peer has the address `addr`.
abbrev peered : List ℕ → Kernel
peered addr log (getpeername fd) = done 28 addr
peered addr log c = done 0 []

abbrev world : List ℕ → World
world addr = record { kernel = peered addr; log = [] }

world-HasPeer : (addr : List ℕ) → HasPeer (world addr) (pos 4) addr
world-HasPeer addr = record { type_len = 0; type_out = []; len = 28; is_socket = refl; peer = refl }

-- Two children, both from 1.7.
abbrev full : NsjConf
full = record conf { pids = child 21 5 1 ∷ child 22 15 1 ∷ [] }

limited : full.max_conns_per_ip ≢ 0
limited h = omega arith

let_in : (net_limit_conns conf (pos 4) (world (2 ∷ 7 ∷ []))).0 ≡ value true
unfolding net_limit_conns count_conns same_addr net_conn_to_text net_is_socket
let_in = refl

net_limit_conns-lt_example : conns_from (2 ∷ 7 ∷ []) conf.pids < 2
net_limit_conns-lt_example =
    net_limit_conns-lt conf (pos 4) (world (2 ∷ 7 ∷ [])) (2 ∷ 7 ∷ []) limited
      (world-HasPeer (2 ∷ 7 ∷ [])) (omega arith) let_in

-- And one from 2.7.
abbrev mixed : NsjConf
mixed = record full { pids = record (child 23 15 1) { remote_addr = 2 ∷ 7 ∷ [] } ∷ full.pids }

none_yet : conns_from (1 ∷ 9 ∷ []) mixed.pids ≡ 0
none_yet = refl

net_limit_conns_first_byte_example :
    (net_limit_conns mixed (pos 4) (world (1 ∷ 9 ∷ []))).0 ≡ value false
net_limit_conns_first_byte_example =
    net_limit_conns_first_byte mixed (pos 4) (world (1 ∷ 9 ∷ [])) (1 ∷ 9 ∷ []) (1 ∷ 7 ∷ []) limited
      (world-HasPeer (1 ∷ 9 ∷ [])) refl (omega arith) (omega arith)

-- libnl does not find the interface.
abbrev networked : NsjConf
networked = record conf { iface = some (bytes "eth0") }

net_init_ns_from_parent-Released_example :
    (b : Bool) × ((net_init_ns_from_parent networked (pos 7) start).0 ≡ value b)
    × Released 0 nl_cache 0 start.log (net_init_ns_from_parent networked (pos 7) start).1.log
net_init_ns_from_parent-Released_example =
    net_init_ns_from_parent-Released networked (pos 7) start nl_cache 0
