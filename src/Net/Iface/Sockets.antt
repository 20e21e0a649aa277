-- ===== src/Net/Iface/Sockets.antt =====
-- net.c: no path through the set-up of the interfaces leaves a socket open.
use Prim.Native.Nat.{bit_or}
use nsjail.Common.{get_or, ℕ, ◌≡◌, refl, Bool, true, false, not, ◌&&◌, List, ◌==◌, arith}
use nsjail.Common.Int.{ℤ, pos}
use nsjail.Os.{
  fail, done, CString, Syscall, socket, close, inet_pton, get_iface_flags, set_iface_flags,
  set_iface_addr, set_iface_netmask, add_route, World, value, Action, pure, sys, failed, result_of,
  out_of,
}
use nsjail.Os.Descriptors.{
  is_open, is_close, Closes, Closed, nothing, only, Closes-pure, Closes-if, Closes-bind,
  Closes-first, Closes-sys, Closes-close, Closes-open, Closes-owed,
}
use nsjail.Conf.{NsjConf}
use nsjail.Net.Iface.{
  iff_up_running, closing, or_close, pton_or_close, with_socket, bring_up, net_iface_up,
  add_gateway, up_and_gateway, set_address, net_configure_vs, net_init_ns_from_child, iface_name,
  is_any, vs,
}

closing-Closes : (sock : ℤ) (b : Bool) → Closes (only sock) (closing sock b)
closing-Closes sock b = Closes-first (sys (close sock)) _ (Closes-close sock) (λ _. Closes-pure b)

-- Calls on the socket, which neither open nor close.
or_close-Closes :
    (sock : ℤ) (call : Syscall) (rest : Action Bool)
    → is_open call ≡ false
    → ((fd : ℤ) → is_close fd call ≡ false)
    → Closes (only sock) rest
    → Closes (only sock) (or_close sock call rest)
or_close-Closes sock call rest o k c =
    Closes-bind (sys call) _ (Closes-sys call o k)
      (λ r. Closes-if (failed r) _ _ (closing-Closes sock false) c)

pton_or_close-Closes :
    (sock : ℤ) (text : CString) (rest : List ℕ → Action Bool)
    → ((addr : List ℕ) → Closes (only sock) (rest addr))
    → Closes (only sock) (pton_or_close sock text rest)
pton_or_close-Closes sock text rest c =
    Closes-bind (sys (inet_pton 2 text)) _ (Closes-sys (inet_pton 2 text) refl (λ fd. refl)) (λ r.
      Closes-if (not (failed r) && result_of r == 1) _ _ (c (out_of r)) (closing-Closes sock false))

with_socket-Closes :
    (rest : ℤ → Action Bool)
    → ((sock : ℤ) → Closes (only sock) (rest sock))
    → Closes nothing (with_socket rest)
with_socket-Closes rest c =
    Closes-open nothing (socket 2) (λ r. elim r [ fail e ↦ pure false | done s out ↦ rest (pos s) ])
      refl (λ fd. refl) (λ e. Closes-pure false)
      (λ n out. Closes-owed (only (pos n)) _ (rest (pos n)) (λ fd. omega arith) (c (pos n)))

bring_up-Closes : (name : CString) (sock : ℤ) → Closes (only sock) (bring_up name sock)
unfolding bring_up
bring_up-Closes name sock =
    Closes-bind (sys (get_iface_flags sock name)) _
      (Closes-sys (get_iface_flags sock name) refl (λ fd. refl))
      (λ r. Closes-if (failed r) _ _ (closing-Closes sock false) (
        or_close-Closes sock
          (set_iface_flags sock name (bit_or (get_or (out_of r) 0 0) iff_up_running)) _ refl
          (λ fd. refl) (closing-Closes sock true)))

net_iface_up-Closes : (name : CString) → Closes nothing (net_iface_up name)
unfolding net_iface_up
net_iface_up-Closes name = with_socket-Closes _ (bring_up-Closes (iface_name name))

add_gateway-Closes : (conf : NsjConf) (sock : ℤ) → Closes (only sock) (add_gateway conf sock)
unfolding add_gateway
add_gateway-Closes conf sock = pton_or_close-Closes sock conf.iface_vs_gw _ (λ gw.
    Closes-if (is_any gw) _ _ (closing-Closes sock true)
      (or_close-Closes sock (add_route sock vs gw) _ refl (λ fd. refl) (closing-Closes sock true)))

up_and_gateway-Closes : (conf : NsjConf) (sock : ℤ) → Closes (only sock) (up_and_gateway conf sock)
unfolding up_and_gateway
up_and_gateway-Closes conf sock =
    Closes-bind (net_iface_up vs) _ (net_iface_up-Closes vs)
      (λ ok. Closes-if ok _ _ (add_gateway-Closes conf sock) (closing-Closes sock false))

set_address-Closes :
    (conf : NsjConf) (sock : ℤ) (addr : List ℕ) → Closes (only sock) (set_address conf sock addr)
unfolding set_address
set_address-Closes conf sock addr = Closes-if (is_any addr) _ _ (closing-Closes sock true) (
    or_close-Closes sock (set_iface_addr sock vs addr) _ refl (λ fd. refl)
      (pton_or_close-Closes sock conf.iface_vs_nm _ (λ mask.
        or_close-Closes sock (set_iface_netmask sock vs mask) _ refl (λ fd. refl)
          (up_and_gateway-Closes conf sock))))

net_configure_vs-Closes : (conf : NsjConf) → Closes nothing (net_configure_vs conf)
unfolding net_configure_vs
net_configure_vs-Closes conf =
    with_socket-Closes _
      (λ sock. pton_or_close-Closes sock conf.iface_vs_ip _ (set_address-Closes conf sock))

child-Closes : (conf : NsjConf) → Closes nothing (net_init_ns_from_child conf)
unfolding net_init_ns_from_child
child-Closes conf = Closes-if (not conf.clone_newnet) _ _ (Closes-pure true) (
    Closes-bind _ _ (Closes-if conf.iface_no_lo _ _ (Closes-pure true) (net_iface_up-Closes _))
      (λ ok.
        Closes-if ok _ _ (Closes-if _ _ _ (net_configure_vs-Closes conf) (Closes-pure true))
          (Closes-pure false)))

-- Whichever call fails, when `netInitNsFromChild` returns it has closed each descriptor as often as
-- it has opened it.
pub net_init_ns_from_child-closes :
    (conf : NsjConf) (w : World) (b : Bool) (fd : ℤ)
    → (net_init_ns_from_child conf w).0 ≡ value b
    → Closed 0 fd w.log (net_init_ns_from_child conf w).1.log
net_init_ns_from_child-closes conf w b fd h = (child-Closes conf).at w b fd h
