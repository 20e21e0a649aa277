-- ===== src/Subproc/Child/Added.antt =====
-- subproc.c: what `subprocRunChild` leaves of the configuration in the parent.
use nsjail.Common.{ℕ, zero, suc, ◌≡◌, refl, true, ◌∷◌, ◌⊎◌, inl, inr, get_or, ◌++◌}
use nsjail.Common.Int.{ℤ, pos}
use nsjail.Common.Text.{bytes, print_ℤ, snprintf, path_max}
use nsjail.Os.{open_file, time, close, socketpair, clone, Reply, fail, done, pure, sys, ◌>>◌}
use nsjail.Os.Ensures.{Ensures, Ensures-pure, Ensures-if, Ensures-after, Ensures-bind}
use nsjail.Conf.{NsjConf, PidElem}
use nsjail.Net.{net_limit_conns, net_conn_to_text, or_indeterminate}
use nsjail.Subproc.{subproc_add, int_of, o_rdonly_cloexec}
use nsjail.Subproc.Child.{
  subproc_init_parent, subproc_new_proc, cloned, spawn, enter, subproc_run_child, clone_flags,
}
use Prim.Native.Nat.{bit_or}

-- At most one child is new, in front of the others.
abbrev pub IsAdded : NsjConf → NsjConf → Type 0
IsAdded conf conf' =
    (conf' ≡ conf) ⊎ ((p : PidElem) × (conf' ≡ record conf { pids = p ∷ conf.pids }))

same : (conf : NsjConf) → Ensures (IsAdded conf) (pure conf)
same conf = Ensures-pure (IsAdded conf) {a = conf} (inl refl)

subproc_add-IsAdded :
    (conf : NsjConf) (pid sock : ℤ) → Ensures (IsAdded conf) (subproc_add conf pid sock)
unfolding subproc_add
subproc_add-IsAdded conf pid sock =
    let name = snprintf path_max (bytes "/proc/" ++ (print_ℤ pid ++ bytes "/syscall")) in
    Ensures-after (IsAdded conf) (sys time) _ (λ start.
      Ensures-after (IsAdded conf) (net_conn_to_text sock true) _ (λ found.
        Ensures-after (IsAdded conf) (or_indeterminate found) _ (λ addr.
          Ensures-after (IsAdded conf) (sys (open_file name o_rdonly_cloexec)) _ (λ fd.
            let p : PidElem = record {
              pid = pid;
              start = int_of start;
              remote_addr = addr;
              pid_syscall_fd = int_of fd;
            } in
            Ensures-pure (IsAdded conf) {a = record conf { pids = p ∷ conf.pids }}
              (inr (p, refl))))))

cloned-IsAdded :
    (fuel : ℕ) (conf : NsjConf) (fd_in fd_out fd_err child_fd parent_fd : ℤ) (r : Reply)
    → Ensures (IsAdded conf) (cloned fuel conf fd_in fd_out fd_err child_fd parent_fd r)
unfolding cloned
cloned-IsAdded fuel conf i o e child_fd parent_fd (fail n) =
    Ensures-after (IsAdded conf) (sys (close child_fd) >> sys (close parent_fd)) _ (λ _. same conf)
cloned-IsAdded fuel conf i o e child_fd parent_fd (done zero out) =
    Ensures-after (IsAdded conf)
      (sys (close parent_fd) >> subproc_new_proc fuel conf i o e child_fd) _ (λ _. same conf)
cloned-IsAdded fuel conf i o e child_fd parent_fd (done (suc n) out) =
    Ensures-after (IsAdded conf) (sys (close child_fd)) _ (λ _.
      Ensures-bind (IsAdded conf) (IsAdded conf) (subproc_add conf (pos (suc n)) i) _
        (subproc_add-IsAdded conf (pos (suc n)) i)
        (λ conf' a.
          Ensures-after (IsAdded conf) (subproc_init_parent fuel conf' (pos (suc n)) parent_fd) _
            (λ ok. Ensures-after (IsAdded conf) (sys (close parent_fd)) _ (λ _.
              Ensures-if (IsAdded conf) ok _ _
                (Ensures-after (IsAdded conf) (net_conn_to_text i true) _
                  (λ _. Ensures-pure (IsAdded conf) {a = conf'} a))
                (Ensures-pure (IsAdded conf) {a = conf'} a)))))

spawn-IsAdded :
    (fuel : ℕ) (conf : NsjConf) (fd_in fd_out fd_err : ℤ) (r : Reply)
    → Ensures (IsAdded conf) (spawn fuel conf fd_in fd_out fd_err r)
unfolding spawn
spawn-IsAdded fuel conf i o e (fail n) = same conf
spawn-IsAdded fuel conf i o e (done n sv) =
    Ensures-after (IsAdded conf) (sys (clone (bit_or (clone_flags conf) 17))) _
      (cloned-IsAdded fuel conf i o e (pos (get_or sv 0 0)) (pos (get_or sv 1 0)))

pub subproc_run_child-IsAdded :
    (fuel : ℕ) (conf : NsjConf) (fd_in fd_out fd_err : ℤ)
    → Ensures (IsAdded conf) (subproc_run_child fuel conf fd_in fd_out fd_err)
unfolding subproc_run_child
subproc_run_child-IsAdded fuel conf i o e =
    Ensures-after (IsAdded conf) (net_limit_conns conf i) _ (λ ok.
      Ensures-if (IsAdded conf) ok _ _
        (Ensures-after (IsAdded conf) (enter fuel conf i o e) _
          (λ _. Ensures-after (IsAdded conf) (sys socketpair) _ (spawn-IsAdded fuel conf i o e)))
        (same conf))
