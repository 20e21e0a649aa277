-- ===== src/Net/Iface.antt =====
-- net.c: the interfaces of the child's network namespace.
mod Tests
pub mod Sockets
pub mod Kept
use Prim.Native.Nat.{bit_or}
use nsjail.Common.{
  ℕ, Bool, true, false, not, ◌&&◌, Option, none, some, List, [], ◌∷◌, get_or, ◌==◌, if◌then◌else◌,
}
use nsjail.Common.Int.{ℤ, pos}
use nsjail.Common.Text.{bytes, snprintf}
use nsjail.Os.{
  CString, Syscall, socket, close, inet_pton, get_iface_flags, set_iface_flags, set_iface_addr,
  set_iface_netmask, add_route, Reply, fail, done, Action, pure, sys, failed, result_of, out_of,
  ◌>>=◌, ◌>>◌, ◌and_then◌,
}
use nsjail.Conf.{NsjConf}

-- `close(sock); return b;`
abbrev pub closing : ℤ → Bool → Action Bool
closing sock b = sys (close sock) >> pure b

-- `if (call == -1) { close(sock); return false; }` in front of the rest.
abbrev pub or_close : ℤ → Syscall → Action Bool → Action Bool
or_close sock call rest = do r ← sys call; if failed r then closing sock false else rest

-- An address in text, or `close(sock); return false;`.
abbrev pub pton_or_close : ℤ → CString → (List ℕ → Action Bool) → Action Bool
pton_or_close sock text rest = do
  r ← sys (inet_pton 2 text)
  if not (failed r) && result_of r == 1 then rest (out_of r) else closing sock false

-- With the socket that `socket` has returned, if it has.
abbrev pub with_socket : (ℤ → Action Bool) → Action Bool
with_socket rest = do r ← sys (socket 2); elim r [ fail e ↦ pure false | done s out ↦ rest (pos s) ]

-- A name in `ifr_name`.
abbrev pub iface_name : CString → CString
iface_name name = snprintf 16 name

-- IFF_UP | IFF_RUNNING
abbrev pub iff_up_running : ℕ
iff_up_running = 0x41

bring_up : CString → ℤ → Action Bool
bring_up name sock = do
  r ← sys (get_iface_flags sock name)
  if failed r
      then closing sock false
      else or_close sock (set_iface_flags sock name (bit_or (get_or (out_of r) 0 0) iff_up_running))
          (closing sock true)

unfoldable pub net_iface_up : CString → Action Bool
unfolding bring_up
net_iface_up name = with_socket (bring_up (iface_name name))

-- INADDR_ANY
abbrev pub is_any : List ℕ → Bool
is_any [] = true
is_any (b ∷ bs) = b == 0 && is_any bs

abbrev pub vs : CString
vs = bytes "vs"

add_gateway : NsjConf → ℤ → Action Bool
add_gateway conf sock = pton_or_close sock conf.iface_vs_gw λ gw.
    if is_any gw
    then closing sock true
    else or_close sock (add_route sock vs gw) (closing sock true)

up_and_gateway : NsjConf → ℤ → Action Bool
up_and_gateway conf sock = do
  ok ← net_iface_up vs
  if ok then add_gateway conf sock else closing sock false

set_address : NsjConf → ℤ → List ℕ → Action Bool
unfolding add_gateway up_and_gateway
set_address conf sock addr =
    if is_any addr
    then closing sock true
    else or_close sock (set_iface_addr sock vs addr) (
        pton_or_close sock conf.iface_vs_nm
          λ mask. or_close sock (set_iface_netmask sock vs mask) (up_and_gateway conf sock))

unfoldable pub net_configure_vs : NsjConf → Action Bool
unfolding set_address
net_configure_vs conf =
    with_socket λ sock. pton_or_close sock conf.iface_vs_ip (set_address conf sock)

abbrev has_iface : Option CString → Bool
has_iface none = false
has_iface (some name) = true

unfoldable pub net_init_ns_from_child : NsjConf → Action Bool
net_init_ns_from_child conf =
    if not conf.clone_newnet
    then pure true
    else (if conf.iface_no_lo then pure true else net_iface_up (bytes "lo"))
      and_then (if has_iface conf.iface then net_configure_vs conf else pure true)
