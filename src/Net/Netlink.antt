-- ===== src/Net/Netlink.antt =====
-- net.c: the child's interface, in a build with libnl. A handle of the library is a number, and a
-- null pointer or a negative result is a failure.
pub mod Handles
pub mod Released
use nsjail.Common.{ℕ, Bool, true, false, not, ◌||◌, Option, none, some, List, ◌==◌, if◌then◌else◌}
use nsjail.Common.Int.{ℤ}
use nsjail.Os.{
  CString, nl_socket_alloc, nl_connect, nl_socket_free, rtnl_link_macvlan_alloc, rtnl_link_put,
  rtnl_link_alloc_cache, nl_cache_free, rtnl_link_name2i, rtnl_link_set_name, rtnl_link_set_link,
  rtnl_link_set_ns_pid, rtnl_link_add, Reply, fail, done, Action, pure, sys, failed, result_of,
  ◌>>=◌, ◌>>◌,
}
use nsjail.Conf.{NsjConf}
use nsjail.Net.Iface.{vs}

abbrev free_socket : ℕ → Bool → Action Bool
free_socket sk b = sys (nl_socket_free sk) >> pure b

abbrev free_link : ℕ → ℕ → Bool → Action Bool
free_link sk rmv b = sys (rtnl_link_put rmv) >> free_socket sk b

abbrev free_all : ℕ → ℕ → ℕ → Bool → Action Bool
free_all sk rmv cache b = sys (nl_cache_free cache) >> free_link sk rmv b

-- With the index of the interface.
add_link : ℕ → ℕ → ℕ → ℤ → Reply → Action Bool
add_link sk rmv cache pid master =
    if result_of master == 0
    then free_all sk rmv cache false
    else sys (rtnl_link_set_name rmv vs)
      >> (sys (rtnl_link_set_link rmv (result_of master))
          >> (sys (rtnl_link_set_ns_pid rmv pid)
              >> (sys (rtnl_link_add sk rmv) >>= λ r. free_all sk rmv cache (not (failed r)))))

with_cache : ℕ → ℕ → CString → ℤ → Reply → Action Bool
unfolding add_link
with_cache sk rmv iface pid (fail e) = free_link sk rmv false
with_cache sk rmv iface pid (done cache out) =
    sys (rtnl_link_name2i cache iface) >>= add_link sk rmv cache pid

with_link : ℕ → CString → ℤ → Reply → Action Bool
unfolding with_cache
with_link sk iface pid (fail e) = free_socket sk false
with_link sk iface pid (done rmv out) =
    sys (rtnl_link_alloc_cache sk) >>= with_cache sk rmv iface pid

connected : ℕ → CString → ℤ → Reply → Action Bool
unfolding with_link
connected sk iface pid (fail e) = free_socket sk false
connected sk iface pid (done n out) = sys rtnl_link_macvlan_alloc >>= with_link sk iface pid

allocated : CString → ℤ → Reply → Action Bool
unfolding connected
allocated iface pid (fail e) = pure false
allocated iface pid (done sk out) = sys (nl_connect sk) >>= connected sk iface pid

on_iface : ℤ → Option CString → Action Bool
unfolding allocated
on_iface pid none = pure true
on_iface pid (some iface) = sys nl_socket_alloc >>= allocated iface pid

pub net_init_ns_from_parent : NsjConf → ℤ → Action Bool
unfolding on_iface
net_init_ns_from_parent conf pid =
    if not conf.clone_newnet then pure true else on_iface pid conf.iface
