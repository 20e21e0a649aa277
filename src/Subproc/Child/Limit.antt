-- ===== src/Subproc/Child/Limit.antt =====
-- subproc.c, net.c: `subprocRunChild` keeps to the limit on connections from one address.
use mathlib.Core.Path.{subst}
use nsjail.Common.{
  ℕ, suc, zero, ◌^◌, ◌≤◌, ◌<◌, ◌≡◌, ◌≢◌, refl, sym, ◌∙◌, true, false, Option, none, some, List, [],
  ◌∷◌, get_or, arith, ◌++◌, inl, inr, Bool-cases, ==_iff,
}
use Prim.Native.Nat.{bit_or}
use nsjail.Common.Int.{ℤ, pos}
use nsjail.Common.Text.{bytes, print_ℤ, snprintf, path_max}
use nsjail.Os.{
  Kernel, getsockopt_type, getpeername, open_file, time, close, socketpair, clone, Reply, fail,
  done, Event, Action, pure, sys, ◌>>◌,
}
use nsjail.Os.Quiet.{Quiet, Quiet-pure}
use nsjail.Os.Ensures.{Ensures-pure, Ensures-if, Ensures-after}
use nsjail.Os.Under.{Under, Under-pure, Under-if, Under-Ensures, Under-bind, Under-then, Under-sys}
use nsjail.Conf.{NsjConf, PidElem, is_execve}
use nsjail.Net.{
  net_is_socket, net_conn_to_text, or_indeterminate, same_addr, count_conns, under_limit,
  net_limit_conns,
}
use nsjail.Net.Kept.{net_conn_to_text-Quiet, or_indeterminate-Quiet, net_limit_conns-Quiet}
use nsjail.Subproc.{subproc_add, int_of, o_rdonly_cloexec}
use nsjail.Subproc.Child.{
  subproc_init_parent, subproc_new_proc, cloned, spawn, enter, subproc_run_child, clone_flags,
}

-- The descriptor is a socket whose peer has the address `addr`, at every time.
pub record IsPeered (k : Kernel) (sock : ℤ) (addr : List ℕ) : Type 0 where
  pub type_len : ℕ
  pub type_out : List ℕ
  pub len : ℕ
  pub is_socket : (log : List Event) → k log (getsockopt_type sock) ≡ done type_len type_out
  pub peer : (log : List Event) → k log (getpeername sock) ≡ done len addr

-- No first byte of an address stands for more children than the limit.
abbrev pub IsWithin : NsjConf → Type 0
IsWithin conf = (addr : List ℕ) → count_conns addr conf.pids ≤ conf.max_conns_per_ip

-- One more child, from that address.
abbrev IsFrom : NsjConf → List ℕ → NsjConf → Type 0
IsFrom conf addr conf' =
    (p : PidElem) × (p.remote_addr ≡ addr) × (conf' ≡ record conf { pids = p ∷ conf.pids })

written :
    (k : Kernel) {addr : List ℕ} (found : Option (List ℕ))
    → found ≡ some addr
    → Under k (λ a. a ≡ addr) (or_indeterminate found)
written k none f = absurd (ground arith)
written k (some a) f = Under-pure k _ a (ground arith)

count_conns-of_same :
    (a b : List ℕ) (pids : List PidElem)
    → same_addr a b ≡ true
    → count_conns a pids ≡ count_conns b pids
unfolding count_conns same_addr
count_conns-of_same a b [] h = refl
count_conns-of_same a b (p ∷ pids) h =
    let e : get_or a 0 0 ≡ get_or b 0 0 = (==_iff (get_or a 0 0) (get_or b 0 0)).0 h in
    rw (e, count_conns-of_same a b pids h) refl

-- A child more from an address that was under the limit.
IsFrom-IsWithin :
    (conf conf' : NsjConf) (addr : List ℕ)
    → conf.max_conns_per_ip < 2 ^ 32
    → IsWithin conf
    → under_limit conf addr ≡ true
    → IsFrom conf addr conf'
    → IsWithin conf'
unfolding count_conns
IsFrom-IsWithin conf conf' addr small h u (p, e, c) = subst IsWithin (sym c) go
  where
    go : IsWithin (record conf { pids = p ∷ conf.pids })
    go a = elim (Bool-cases (same_addr a p.remote_addr)) [
      | inl y ↦
          let y' : same_addr a addr ≡ true = rw e at y in
          rw (y, count_conns)
            (ground (arith, small, h a, h addr, u, count_conns-of_same a addr conf.pids y'))
      | inr n ↦ rw (n, count_conns) (h a)
    ]

module _ (k : Kernel) (sock : ℤ) (addr : List ℕ) (peered : IsPeered k sock addr) where
  net_conn_to_text-peer : Under k (λ found. found ≡ some addr) (net_conn_to_text sock true)
  unfolding net_conn_to_text net_is_socket
  net_conn_to_text-peer = record {
    at = λ w e a h. ground (
      arith,
      e,
      peered.is_socket w.log,
      peered.peer ((getsockopt_type sock, done peered.type_len peered.type_out) ∷ w.log),
    );
  }

  net_limit_conns-under :
      (conf : NsjConf)
      → conf.max_conns_per_ip ≢ 0
      → Under k (λ ok. under_limit conf addr ≡ ok) (net_limit_conns conf sock)
  unfolding net_limit_conns net_conn_to_text net_is_socket
  net_limit_conns-under conf limited = record {
    at = λ w e a h. ground (
      arith,
      e,
      limited,
      peered.is_socket w.log,
      peered.peer ((getsockopt_type sock, done peered.type_len peered.type_out) ∷ w.log),
    );
  }

  -- The new child has the peer's address.
  subproc_add-peer :
      (conf : NsjConf) (pid : ℤ) → Under k (IsFrom conf addr) (subproc_add conf pid sock)
  unfolding subproc_add
  subproc_add-peer conf pid =
      let Q : NsjConf → Type 0 = IsFrom conf addr in
      let name = snprintf path_max (bytes "/proc/" ++ (print_ℤ pid ++ bytes "/syscall")) in
      Under-sys k Q time _ (λ start.
        Under-bind (λ found. found ≡ some addr) Q (net_conn_to_text sock true) _
          (net_conn_to_text-Quiet sock true) net_conn_to_text-peer
          (λ found f.
            Under-bind (λ a. a ≡ addr) Q (or_indeterminate found) _ (or_indeterminate-Quiet found)
              (written k found f)
              (λ a g. Under-sys k Q (open_file name o_rdonly_cloexec) _ (λ fd.
                let p : PidElem = record {
                  pid = pid;
                  start = int_of start;
                  remote_addr = a;
                  pid_syscall_fd = int_of fd;
                } in
                Under-pure k Q (record conf { pids = p ∷ conf.pids }) (p, g, refl)))))

  module _ (conf : NsjConf) (small : conf.max_conns_per_ip < 2 ^ 32) (h : IsWithin conf) where
    kept : Under k IsWithin (pure conf)
    kept = Under-pure k IsWithin conf h

    cloned-IsWithin :
        (fuel : ℕ) (fd_out fd_err child_fd parent_fd : ℤ) (r : Reply)
        → under_limit conf addr ≡ true
        → Under k IsWithin (cloned fuel conf sock fd_out fd_err child_fd parent_fd r)
    unfolding cloned
    cloned-IsWithin fuel o e child_fd parent_fd (fail n) u = Under-Ensures _ (
        Ensures-after IsWithin (sys (close child_fd) >> sys (close parent_fd)) _
          (λ _. Ensures-pure IsWithin {a = conf} h))
    cloned-IsWithin fuel o e child_fd parent_fd (done zero out) u = Under-Ensures _ (
        Ensures-after IsWithin
          (sys (close parent_fd) >> subproc_new_proc fuel conf sock o e child_fd) _
          (λ _. Ensures-pure IsWithin {a = conf} h))
    cloned-IsWithin fuel o e child_fd parent_fd (done (suc n) out) u =
        Under-sys k IsWithin (close child_fd) _ (λ r.
          Under-then (IsFrom conf addr) IsWithin (subproc_add conf (pos (suc n)) sock) _
            (subproc_add-peer conf (pos (suc n)))
            (λ conf' f.
              let w = IsFrom-IsWithin conf conf' addr small h u f in
              (Ensures-after IsWithin (subproc_init_parent fuel conf' (pos (suc n)) parent_fd) _
                (λ ok. Ensures-after IsWithin (sys (close parent_fd)) _ (λ _.
                  Ensures-if IsWithin ok _ _
                    (Ensures-after IsWithin (net_conn_to_text sock true) _
                      (λ _. Ensures-pure IsWithin {a = conf'} w))
                    (Ensures-pure IsWithin {a = conf'} w))))))

    spawn-IsWithin :
        (fuel : ℕ) (fd_out fd_err : ℤ) (r : Reply)
        → under_limit conf addr ≡ true
        → Under k IsWithin (spawn fuel conf sock fd_out fd_err r)
    unfolding spawn
    spawn-IsWithin fuel o e (fail n) u = kept
    spawn-IsWithin fuel o e (done n sv) u =
        Under-sys k IsWithin (clone (bit_or (clone_flags conf) 17)) _
          (λ r. cloned-IsWithin fuel o e (pos (get_or sv 0 0)) (pos (get_or sv 1 0)) r u)

    enter-Quiet :
        (fuel : ℕ) (fd_out fd_err : ℤ)
        → is_execve conf.mode ≡ false
        → Quiet (enter fuel conf sock fd_out fd_err)
    unfolding enter
    enter-Quiet fuel o e own = rw own (Quiet-pure tt)

    any : {A : Type 0} (m : Action A) → Under k (λ _. Unit {0}) m
    any m = record { at = λ w e a h. tt }

    -- A child that `subprocRunChild` starts leaves every address within the limit.
    pub subproc_run_child-IsWithin :
        (fuel : ℕ) (fd_out fd_err : ℤ)
        → conf.max_conns_per_ip ≢ 0
        → is_execve conf.mode ≡ false
        → Under k IsWithin (subproc_run_child fuel conf sock fd_out fd_err)
    unfolding subproc_run_child
    subproc_run_child-IsWithin fuel o e limited own =
        Under-bind (λ ok. under_limit conf addr ≡ ok) IsWithin (net_limit_conns conf sock) _
          (net_limit_conns-Quiet conf sock) (net_limit_conns-under conf limited)
          (λ ok u.
            Under-if ok _ _
              (λ y.
                Under-bind (λ _. Unit {0}) IsWithin (enter fuel conf sock o e) _
                  (enter-Quiet fuel o e own) (any (enter fuel conf sock o e))
                  (λ _ _.
                    Under-sys k IsWithin socketpair _ (λ r. spawn-IsWithin fuel o e r (u ∙ y))))
              (λ n. kept))
