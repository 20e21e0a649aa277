-- ===== src/Net/Netlink/Handles.antt =====
-- net.c: which handles of libnl an action takes and gives back, by the calls that it makes.
use nsjail.Common.{
  ℕ, ◌+◌, ◌≡◌, Bool, true, false, ◌&&◌, Option, none, some, List, [], ◌∷◌, ◌==◌, arith,
  if◌then◌else◌,
}
use nsjail.Os.{
  Syscall, nl_socket_alloc, nl_socket_free, rtnl_link_macvlan_alloc, rtnl_link_put,
  rtnl_link_alloc_cache, nl_cache_free, Event, Reply, fail, done, World, value, Action, sys, ◌>>=◌,
  ◌>>◌,
}

pub data Kind : Type 0 where
  nl_sock : Kind
  rtnl_link : Kind
  nl_cache : Kind

abbrev pub same : Kind → Kind → Bool
same nl_sock nl_sock = true
same rtnl_link rtnl_link = true
same nl_cache nl_cache = true
same k j = false

-- The kind of handle that a call returns, if it returns one.
abbrev pub kind_taken : Syscall → Option Kind
kind_taken nl_socket_alloc = some nl_sock
kind_taken rtnl_link_macvlan_alloc = some rtnl_link
kind_taken (rtnl_link_alloc_cache sk) = some nl_cache
kind_taken c = none

-- The handle that a call gives back.
abbrev pub handle_freed : Syscall → Option (Kind × ℕ)
handle_freed (nl_socket_free g) = some (nl_sock, g)
handle_freed (rtnl_link_put g) = some (rtnl_link, g)
handle_freed (nl_cache_free g) = some (nl_cache, g)
handle_freed c = none

abbrev pub takes : Kind → Syscall → Bool
takes k c = elim (kind_taken c) [ none ↦ false | some j ↦ same k j ]

abbrev pub frees : Kind → ℕ → Syscall → Bool
frees k h c = elim (handle_freed c) [ none ↦ false | some (j, g) ↦ same k j && g == h ]

abbrev pub is_handle : ℕ → Reply → Bool
is_handle h (fail e) = false
is_handle h (done n out) = n == h

-- How often the handle has been taken, and given back.
abbrev pub taken : Kind → ℕ → List Event → ℕ
taken k h [] = 0
taken k h ((c, r) ∷ log) =
    (if takes k c then (if is_handle h r then 1 else 0) else 0) + taken k h log

abbrev pub freed : Kind → ℕ → List Event → ℕ
freed k h [] = 0
freed k h ((c, r) ∷ log) = (if frees k h c then 1 else 0) + freed k h log

-- `n` more have been given back than taken, between the two logs.
abbrev pub Released : ℕ → Kind → ℕ → List Event → List Event → Type 0
Released n k h before after =
    taken k h after + freed k h before + n ≡ taken k h before + freed k h after

-- The action returns, and gives back what is owed and all that it takes.
pub record Frees (owed : Kind → ℕ → ℕ) (m : Action Bool) : Type 0 where
  pub at :
      (w : World) (k : Kind) (h : ℕ)
      → (b : Bool) × ((m w).0 ≡ value b) × Released (owed k h) k h w.log (m w).1.log

abbrev pub nothing : Kind → ℕ → ℕ
nothing k h = 0

abbrev pub with_sock : ℕ → Kind → ℕ → ℕ
with_sock sk nl_sock h = if sk == h then 1 else 0
with_sock sk k h = 0

abbrev pub with_rmv : ℕ → ℕ → Kind → ℕ → ℕ
with_rmv sk rmv rtnl_link h = if rmv == h then 1 else 0
with_rmv sk rmv k h = with_sock sk k h

abbrev pub with_all : ℕ → ℕ → ℕ → Kind → ℕ → ℕ
with_all sk rmv cache nl_cache h = if cache == h then 1 else 0
with_all sk rmv cache k h = with_rmv sk rmv k h

-- A call that neither takes nor gives back a handle.
pub Frees-sys :
    {owed : Kind → ℕ → ℕ} (c : Syscall) (f : Reply → Action Bool)
    → kind_taken c ≡ none
    → handle_freed c ≡ none
    → ((r : Reply) → Frees owed (f r))
    → Frees owed (sys c >>= f)
Frees-sys c f t g ff = record {
  at = λ w k h.
      let r = w.kernel w.log c in
      let (b, e, q) = (ff r).at (record w { log = (c, r) ∷ w.log }) k h in
      (b, e, ground (arith, q, t, g));
}

-- A call that gives a handle back, or takes one.
pub Frees-free :
    {owed less : Kind → ℕ → ℕ} (c : Syscall) (m : Action Bool)
    → kind_taken c ≡ none
    → ((k : Kind) (h : ℕ) → (if frees k h c then 1 else 0) + less k h ≡ owed k h)
    → Frees less m
    → Frees owed (sys c >> m)
Frees-free c m t g fm = record {
  at = λ w k h.
      let r = w.kernel w.log c in
      let (b, e, q) = fm.at (record w { log = (c, r) ∷ w.log }) k h in
      (b, e, ground (arith, q, t, g k h));
}

pub Frees-take :
    {owed : Kind → ℕ → ℕ} (more : ℕ → Kind → ℕ → ℕ) (c : Syscall) (f : Reply → Action Bool)
    → ((k : Kind) (h : ℕ) → frees k h c ≡ false)
    → ((n : ℕ) (k : Kind) (h : ℕ)
        → more n k h ≡ (if takes k c then (if n == h then 1 else 0) else 0) + owed k h)
    → ((e : ℕ) → Frees owed (f (fail e)))
    → ((n : ℕ) (out : List ℕ) → Frees (more n) (f (done n out)))
    → Frees owed (sys c >>= f)
Frees-take {owed} more c f g t ff fd = record { at = λ w k h. go w k h (w.kernel w.log c) }
  where
    go :
        (w : World) (k : Kind) (h : ℕ) (r : Reply)
        → let w' : World = record w { log = (c, r) ∷ w.log } in
          (b : Bool) × ((f r w').0 ≡ value b) × Released (owed k h) k h w.log (f r w').1.log
    go w k h (fail e) =
        let (b, v, q) = (ff e).at (record w { log = (c, fail e) ∷ w.log }) k h in
        (b, v, ground (arith, q, g k h))
    go w k h (done n out) =
        let (b, v, q) = (fd n out).at (record w { log = (c, done n out) ∷ w.log }) k h in
        (b, v, ground (arith, q, g k h, t n k h))
