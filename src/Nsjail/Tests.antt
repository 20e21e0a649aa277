-- ===== src/Nsjail/Tests.antt =====
-- Rounds of the loops.
use nsjail.Common.{◌≤◌, ◌≡◌, refl, true, false, [], ◌∷◌, arith}
use nsjail.Common.Int.{pos}
use nsjail.Os.{
  Kernel, World, signals, getpeername, accept, socketpair, waitid, wait4, fail, done, value,
}
use nsjail.Conf.{NsjConf, listen_tcp}
use nsjail.Tests.Worlds.{conf, child}
use nsjail.Net.{count_conns, same_addr, net_accept_conn}
use nsjail.Net.Limit.{conns_from}
use nsjail.Subproc.{subproc_reap, reap_loop, kill_overdue}
use nsjail.Subproc.Deadline.{killed}
use nsjail.Nsjail.{
  Flags, Run, continues, handle_all, listen_round, accept_round, show_if_asked, serve, rounds_of,
}
use nsjail.Nsjail.Signals.{listen_round-fatal}
use nsjail.Nsjail.Limit.{ArePeered, IsLimited, Serves, Serves-conns_from}

abbrev flags : Flags
flags = record { sig_fatal = 0; show_proc = false }

abbrev server : NsjConf
server = record conf { mode = listen_tcp }

abbrev run : Run
run = record { conf = server; flags = flags }

-- SIGTERM comes.
abbrev ending : Kernel
ending log signals = done 0 (15 ∷ [])
ending log c = done 0 []

abbrev last_world : World
last_world = record { kernel = ending; log = [] }

listen_round-fatal_example :
    ((rounds_of (listen_round 1 (pos 3)) 5 run last_world).0 ≡ value (pos 0))
    × (killed (pos 22) (rounds_of (listen_round 1 (pos 3)) 5 run last_world).1.log ≡ true)
listen_round-fatal_example = listen_round-fatal 4 1 (pos 3) (pos 22) run last_world refl refl

-- Nobody connects.
abbrev idle : Kernel
idle log (accept fd) = fail 11
idle log (getpeername fd) = done 28 (1 ∷ 7 ∷ [])
idle log c = done 0 []

abbrev idle_world : World
idle_world = record { kernel = idle; log = [] }

idle-ArePeered : ArePeered idle
idle-ArePeered sock = (
  1 ∷ 7 ∷ [],
  record { type_len = 0; type_out = []; len = 28; is_socket = λ log. refl; peer = λ log. refl },
)

server-IsLimited : IsLimited server
unfolding count_conns same_addr
server-IsLimited = record {
  limited = λ h. omega (arith, h);
  small = omega arith;
  serves = refl;
  within = λ addr. ground arith;
}

idle_round : (listen_round 1 (pos 3) run idle_world).0 ≡ value (continues run)
unfolding listen_round accept_round show_if_asked serve handle_all net_accept_conn subproc_reap
    reap_loop kill_overdue
idle_round = refl

Serves-conns_from_example : conns_from (1 ∷ 7 ∷ []) server.pids ≤ 2
Serves-conns_from_example =
    Serves-conns_from 1 (pos 3) run run (1 ∷ 7 ∷ []) server-IsLimited
      (Serves.round idle_world idle-ArePeered idle_round Serves.here)

-- The only child has been killed, and is waited for; no other one can be started.
abbrev last_child : Kernel
last_child log socketpair = fail 24
last_child ((socketpair, r) ∷ log) waitid = done 0 (22 ∷ 2 ∷ 9 ∷ [])
last_child log (wait4 pid) = done 22 (9 ∷ [])
last_child log c = done 0 []

abbrev once : NsjConf
once = record conf { pids = child 22 15 2 ∷ []; max_conns_per_ip = 0 }

abbrev childless : World
childless = record { kernel = last_child; log = [] }
