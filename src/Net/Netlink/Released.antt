-- ===== src/Net/Netlink/Released.antt =====
-- net.c: with libnl, every handle that is taken is given back.
use nsjail.Common.{
  ℕ, ◌+◌, ◌≡◌, refl, Bool, true, false, not, Option, none, some, ◌==◌, arith, if◌then◌else◌,
}
use nsjail.Common.Int.{ℤ}
use nsjail.Os.{
  CString, nl_socket_alloc, nl_connect, nl_socket_free, rtnl_link_macvlan_alloc, rtnl_link_put,
  rtnl_link_alloc_cache, nl_cache_free, rtnl_link_name2i, rtnl_link_set_name, rtnl_link_set_link,
  rtnl_link_set_ns_pid, rtnl_link_add, Reply, fail, done, World, value, Action, pure, sys, failed,
  result_of, ◌>>=◌, ◌>>◌,
}
use nsjail.Conf.{NsjConf}
use nsjail.Net.Iface.{vs}
use nsjail.Net.Netlink.{
  free_socket, free_link, free_all, add_link, with_cache, with_link, connected, allocated, on_iface,
  net_init_ns_from_parent,
}
use nsjail.Net.Netlink.Handles.{
  Kind, nl_sock, rtnl_link, nl_cache, takes, frees, Released, Frees, nothing, with_sock, with_rmv,
  with_all, Frees-sys, Frees-free, Frees-take,
}

pure-Frees : (b : Bool) → Frees nothing (pure b)
pure-Frees b = record { at = λ w k h. (b, refl, omega arith) }

free_socket-Frees : (sk : ℕ) (b : Bool) → Frees (with_sock sk) (free_socket sk b)
free_socket-Frees sk b = Frees-free (nl_socket_free sk) (pure b) refl owes (pure-Frees b)
  where
    owes :
        (k : Kind) (h : ℕ)
        → (if frees k h (nl_socket_free sk) then 1 else 0) + nothing k h ≡ with_sock sk k h
    owes nl_sock h = omega arith
    owes rtnl_link h = refl
    owes nl_cache h = refl

free_link-Frees : (sk rmv : ℕ) (b : Bool) → Frees (with_rmv sk rmv) (free_link sk rmv b)
free_link-Frees sk rmv b =
    Frees-free (rtnl_link_put rmv) (free_socket sk b) refl owes (free_socket-Frees sk b)
  where
    owes :
        (k : Kind) (h : ℕ)
        → (if frees k h (rtnl_link_put rmv) then 1 else 0) + with_sock sk k h ≡ with_rmv sk rmv k h
    owes nl_sock h = omega arith
    owes rtnl_link h = omega arith
    owes nl_cache h = refl

free_all-Frees :
    (sk rmv cache : ℕ) (b : Bool) → Frees (with_all sk rmv cache) (free_all sk rmv cache b)
free_all-Frees sk rmv cache b =
    Frees-free (nl_cache_free cache) (free_link sk rmv b) refl owes (free_link-Frees sk rmv b)
  where
    owes :
        (k : Kind) (h : ℕ)
        → (if frees k h (nl_cache_free cache) then 1 else 0) + with_rmv sk rmv k h
          ≡ with_all sk rmv cache k h
    owes nl_sock h = omega arith
    owes rtnl_link h = omega arith
    owes nl_cache h = omega arith

add_link-Frees :
    (sk rmv cache : ℕ) (pid : ℤ) (master : Reply)
    → Frees (with_all sk rmv cache) (add_link sk rmv cache pid master)
unfolding add_link
add_link-Frees sk rmv cache pid master = go (result_of master == 0)
  where
    add : Action Bool
    add =
        sys (rtnl_link_set_name rmv vs)
        >> (sys (rtnl_link_set_link rmv (result_of master))
            >> (sys (rtnl_link_set_ns_pid rmv pid)
                >> (sys (rtnl_link_add sk rmv) >>= λ r. free_all sk rmv cache (not (failed r)))))

    add-Frees : Frees (with_all sk rmv cache) add
    add-Frees = Frees-sys (rtnl_link_set_name rmv vs) _ refl refl (λ _.
        Frees-sys (rtnl_link_set_link rmv (result_of master)) _ refl refl (λ _.
          Frees-sys (rtnl_link_set_ns_pid rmv pid) _ refl refl (λ _.
            Frees-sys (rtnl_link_add sk rmv) _ refl refl
              (λ r. free_all-Frees sk rmv cache (not (failed r))))))

    go : (b : Bool) → Frees (with_all sk rmv cache) (if b then free_all sk rmv cache false else add)
    go true = free_all-Frees sk rmv cache false
    go false = add-Frees

with_cache-Frees :
    (sk rmv : ℕ) (iface : CString) (pid : ℤ) (r : Reply)
    → Frees
        (elim r [ fail e ↦ with_rmv sk rmv | done cache out ↦ with_all sk rmv cache ])
        (with_cache sk rmv iface pid r)
unfolding with_cache
with_cache-Frees sk rmv iface pid (fail e) = free_link-Frees sk rmv false
with_cache-Frees sk rmv iface pid (done cache out) =
    Frees-sys (rtnl_link_name2i cache iface) _ refl refl (add_link-Frees sk rmv cache pid)

with_link-Frees :
    (sk : ℕ) (iface : CString) (pid : ℤ) (r : Reply)
    → Frees
        (elim r [ fail e ↦ with_sock sk | done rmv out ↦ with_rmv sk rmv ])
        (with_link sk iface pid r)
unfolding with_link
with_link-Frees sk iface pid (fail e) = free_socket-Frees sk false
with_link-Frees sk iface pid (done rmv out) =
    Frees-take (with_all sk rmv) (rtnl_link_alloc_cache sk) (with_cache sk rmv iface pid)
      (λ k h. refl) owes (λ e. with_cache-Frees sk rmv iface pid (fail e))
      (λ n out. with_cache-Frees sk rmv iface pid (done n out))
  where
    owes :
        (n : ℕ) (k : Kind) (h : ℕ)
        → with_all sk rmv n k h
          ≡ (if takes k (rtnl_link_alloc_cache sk) then (if n == h then 1 else 0) else 0)
            + with_rmv sk rmv k h
    owes n nl_sock h = omega arith
    owes n rtnl_link h = omega arith
    owes n nl_cache h = omega arith

connected-Frees :
    (sk : ℕ) (iface : CString) (pid : ℤ) (r : Reply)
    → Frees (with_sock sk) (connected sk iface pid r)
unfolding connected
connected-Frees sk iface pid (fail e) = free_socket-Frees sk false
connected-Frees sk iface pid (done n out) =
    Frees-take (with_rmv sk) rtnl_link_macvlan_alloc (with_link sk iface pid) (λ k h. refl) owes
      (λ e. with_link-Frees sk iface pid (fail e))
      (λ n out. with_link-Frees sk iface pid (done n out))
  where
    owes :
        (n : ℕ) (k : Kind) (h : ℕ)
        → with_rmv sk n k h
          ≡ (if takes k rtnl_link_macvlan_alloc then (if n == h then 1 else 0) else 0)
            + with_sock sk k h
    owes n nl_sock h = omega arith
    owes n rtnl_link h = omega arith
    owes n nl_cache h = refl

on_iface-Frees : (pid : ℤ) (iface : Option CString) → Frees nothing (on_iface pid iface)
unfolding on_iface allocated
on_iface-Frees pid none = pure-Frees true
on_iface-Frees pid (some iface) =
    Frees-take with_sock nl_socket_alloc (allocated iface pid) (λ k h. refl) owes
      (λ e. pure-Frees false)
      (λ sk out. Frees-sys (nl_connect sk) _ refl refl (connected-Frees sk iface pid))
  where
    owes :
        (n : ℕ) (k : Kind) (h : ℕ)
        → with_sock n k h
          ≡ (if takes k nl_socket_alloc then (if n == h then 1 else 0) else 0) + nothing k h
    owes n nl_sock h = omega arith
    owes n rtnl_link h = refl
    owes n nl_cache h = refl

parent-Frees : (conf : NsjConf) (pid : ℤ) → Frees nothing (net_init_ns_from_parent conf pid)
unfolding net_init_ns_from_parent
parent-Frees conf pid = go conf.clone_newnet
  where
    go : (b : Bool) → Frees nothing (if not b then pure true else on_iface pid conf.iface)
    go true = on_iface-Frees pid conf.iface
    go false = pure-Frees true

-- In a build with libnl, `netInitNsFromParent` returns whichever call fails, and has given back
-- each socket, link and cache as often as it has taken it.
pub net_init_ns_from_parent-Released :
    (conf : NsjConf) (pid : ℤ) (w : World) (k : Kind) (h : ℕ)
    → (b : Bool) × ((net_init_ns_from_parent conf pid w).0 ≡ value b)
      × Released 0 k h w.log (net_init_ns_from_parent conf pid w).1.log
net_init_ns_from_parent-Released conf pid w k h = (parent-Frees conf pid).at w k h
