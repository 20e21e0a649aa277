-- ===== src/Net/Kept.antt =====
-- net.c: reading and limiting connections executes no program.
use nsjail.Common.{ℕ, Bool, true, false, Option, none, some, List}
use nsjail.Common.Int.{ℤ, pos}
use nsjail.Os.{accept, set_cork, Reply, fail, done, pure, sys, ◌>>=◌}
use nsjail.Os.Quiet.{Quiet, Quiet-pure, Quiet-bind, quiet_rules}
use nsjail.Conf.{NsjConf}
use nsjail.Net.{net_is_socket, net_conn_to_text, or_indeterminate, net_limit_conns, net_accept_conn}

pub net_conn_to_text-Quiet : (sock : ℤ) (remote : Bool) → Quiet (net_conn_to_text sock remote)
unfolding net_conn_to_text net_is_socket
net_conn_to_text-Quiet sock true = search quiet_rules
net_conn_to_text-Quiet sock false = search quiet_rules

pub or_indeterminate-Quiet : (found : Option (List ℕ)) → Quiet (or_indeterminate found)
or_indeterminate-Quiet none = search quiet_rules
or_indeterminate-Quiet (some addr) = Quiet-pure addr

pub net_limit_conns-Quiet : (conf : NsjConf) (sock : ℤ) → Quiet (net_limit_conns conf sock)
unfolding net_limit_conns
net_limit_conns-Quiet conf sock =
    search (quiet_rules, net_conn_to_text-Quiet, or_indeterminate-Quiet)

pub net_accept_conn-Quiet : (listenfd : ℤ) → Quiet (net_accept_conn listenfd)
unfolding net_accept_conn
net_accept_conn-Quiet listenfd = Quiet-bind (sys (accept listenfd)) _ (search quiet_rules) go
  where
    go :
        (r : Reply)
        → Quiet {A = Option ℕ} (elim r [
          | fail e ↦ pure none
          | done fd out ↦ net_conn_to_text (pos fd) true >>= λ _.
              net_conn_to_text (pos fd) false >>= λ _.
              sys (set_cork (pos fd)) >>= λ _. pure (some fd)
        ])
    go (fail e) = Quiet-pure none
    go (done fd out) = search (quiet_rules, net_conn_to_text-Quiet) depth 9
