-- ===== src/Net/Limit.antt =====
-- net.c: what `netLimitConns` lets in.
use nsjail.Common.{
  ℕ, suc, ◌^◌, ◌<◌, ◌≤◌, ◌≡◌, ◌≢◌, refl, true, false, List, [], ◌∷◌, length, get_or, arith, ◌==◌,
  if◌then◌else◌, ==_refl, Bool-cases, inl, inr,
}
use nsjail.Common.Text.{eq_bytes}
use nsjail.Common.Int.{ℤ}
use nsjail.Os.{World, done, getsockopt_type, getpeername, value}
use nsjail.Conf.{NsjConf, PidElem}
use nsjail.Net.{same_addr, count_conns, under_limit, net_limit_conns}

-- The children whose whole address is `addr`.
abbrev pub conns_from : List ℕ → List PidElem → ℕ
conns_from addr [] = 0
conns_from addr (p ∷ pids) =
    if eq_bytes addr p.remote_addr then suc (conns_from addr pids) else conns_from addr pids

same_addr-of_eq : (a b : List ℕ) → eq_bytes a b ≡ true → same_addr a b ≡ true
unfolding same_addr
same_addr-of_eq [] [] h = refl
same_addr-of_eq [] (y ∷ b) h = ground arith
same_addr-of_eq (x ∷ a) [] h = ground arith
same_addr-of_eq (x ∷ a) (y ∷ b) h = ground arith

pub conns_from-le-count_conns :
    (addr : List ℕ) (pids : List PidElem) → conns_from addr pids ≤ count_conns addr pids
unfolding count_conns
conns_from-le-count_conns addr [] = omega arith
conns_from-le-count_conns addr (p ∷ pids) =
    ground (arith, conns_from-le-count_conns addr pids, same_addr-of_eq addr p.remote_addr)

count_conns-le-length : (addr : List ℕ) (pids : List PidElem) → count_conns addr pids ≤ length pids
unfolding count_conns
count_conns-le-length addr [] = omega arith
count_conns-le-length addr (p ∷ pids) = ground (arith, count_conns-le-length addr pids)

-- The connection has `addr` for its peer.
pub record HasPeer (w : World) (sock : ℤ) (addr : List ℕ) : Type 0 where
  pub type_len : ℕ
  pub type_out : List ℕ
  pub len : ℕ
  pub is_socket : w.kernel w.log (getsockopt_type sock) ≡ done type_len type_out
  pub peer :
      w.kernel ((getsockopt_type sock, done type_len type_out) ∷ w.log) (getpeername sock)
      ≡ done len addr

module _ (conf : NsjConf) (sock : ℤ) (w : World) (addr : List ℕ) where
  net_limit_conns-peer :
      conf.max_conns_per_ip ≢ 0
      → HasPeer w sock addr
      → (net_limit_conns conf sock w).0 ≡ value (under_limit conf addr)
  unfolding net_limit_conns
  net_limit_conns-peer limited h = ground (arith, h.is_socket, h.peer)

  -- A connection that `netLimitConns` lets in, under a limit, with a known peer and among fewer than
  -- 2 ^ 32 children, comes from an address that has fewer children than the limit.
  pub net_limit_conns-lt :
      conf.max_conns_per_ip ≢ 0
      → HasPeer w sock addr
      → length conf.pids < 2 ^ 32
      → (net_limit_conns conf sock w).0 ≡ value true
      → conns_from addr conf.pids < conf.max_conns_per_ip
  net_limit_conns-lt limited h few ok = ground (
    arith,
    net_limit_conns-peer limited h,
    conns_from-le-count_conns addr conf.pids,
    count_conns-le-length addr conf.pids,
  )

eq_bytes-get_or : (a b : List ℕ) → eq_bytes a b ≡ true → get_or a 0 0 ≡ get_or b 0 0
eq_bytes-get_or [] [] h = refl
eq_bytes-get_or [] (y ∷ b) h = absurd (ground arith)
eq_bytes-get_or (x ∷ a) [] h = absurd (ground arith)
eq_bytes-get_or (x ∷ a) (y ∷ b) h = ground arith

-- A child of an address counts for every address that begins with the same byte.
conns_from-le-shared :
    (addr other : List ℕ) (pids : List PidElem)
    → get_or addr 0 0 ≡ get_or other 0 0
    → conns_from other pids ≤ count_conns addr pids
unfolding count_conns same_addr
conns_from-le-shared addr other [] e = omega arith
conns_from-le-shared addr other (p ∷ pids) e =
    let rest = conns_from-le-shared addr other pids e in
    elim (Bool-cases (eq_bytes other p.remote_addr)) [
      | inl y ↦
          let same : (get_or addr 0 0 == get_or p.remote_addr 0 0) ≡ true =
            rw (e, eq_bytes-get_or other p.remote_addr y) (==_refl (get_or p.remote_addr 0 0)) in
          rw (y, same) (omega (arith, rest))
      | inr n ↦ rw n (ground (arith, rest))
    ]

-- Only the first byte of an address counts: while one address has as many children as the limit, or
-- more, `netLimitConns` turns away every peer whose address begins with the same byte, whatever
-- children that peer has, none included. That is for fewer than 2 ^ 32 children in all.
pub net_limit_conns_first_byte :
    (conf : NsjConf) (sock : ℤ) (w : World) (addr other : List ℕ)
    → conf.max_conns_per_ip ≢ 0
    → HasPeer w sock addr
    → get_or addr 0 0 ≡ get_or other 0 0
    → conf.max_conns_per_ip ≤ conns_from other conf.pids
    → length conf.pids < 2 ^ 32
    → (net_limit_conns conf sock w).0 ≡ value false
net_limit_conns_first_byte conf sock w addr other limited h e full few = ground (
  arith,
  net_limit_conns-peer conf sock w addr limited h,
  conns_from-le-shared addr other conf.pids e,
  count_conns-le-length addr conf.pids,
)
