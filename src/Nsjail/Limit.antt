-- ===== src/Nsjail/Limit.antt =====
-- nsjail.c: the listening loop keeps to the limit on connections from one address.
use mathlib.Core.Path.{subst}
use nsjail.Common.{
  ℕ, ◌^◌, ◌≤◌, ◌<◌, ◌≡◌, ◌≢◌, refl, sym, false, Option, none, some, List, arith, ltb,
}
use nsjail.Common.Int.{ℤ, pos}
use nsjail.Os.{Kernel, World, value, close, Action, sys}
use nsjail.Os.Ensures.{Ensures-pure, Ensures-after, Ensures-bind}
use nsjail.Os.Under.{Under, Under-pure, Under-if, Under-Ensures, Under-bind, Under-then, Under-both}
use nsjail.Conf.{NsjConf, is_execve}
use nsjail.Net.{net_accept_conn}
use nsjail.Net.Kept.{net_accept_conn-Quiet}
use nsjail.Net.Limit.{conns_from, conns_from-le-count_conns}
use nsjail.Subproc.{subproc_reap, subproc_kill_all}
use nsjail.Subproc.Shrink.{IsShrunk, subproc_reap-Ensures}
use nsjail.Subproc.Child.{subproc_run_child}
use nsjail.Subproc.Child.Limit.{IsPeered, IsWithin, subproc_run_child-IsWithin}
use nsjail.Nsjail.Kept.{deliver-Quiet, show_if_asked-Quiet}
use nsjail.Nsjail.{
  Flags, Run, Round, returns, continues, deliver, show_if_asked, serve, accept_round, listen_round,
}
use nsjail.Nsjail.Loops.{Same, run_child-Same}

-- Each socket has one peer, for as long as this kernel is the one that answers.
abbrev pub ArePeered : Kernel → Type 0
ArePeered k = (sock : ℤ) → (addr : List ℕ) × IsPeered k sock addr

-- A server under a limit that its children keep to.
pub record IsLimited (conf : NsjConf) : Type 0 where
  pub limited : conf.max_conns_per_ip ≢ 0
  pub small : conf.max_conns_per_ip < 2 ^ 32
  pub serves : is_execve conf.mode ≡ false
  pub within : IsWithin conf

IsLimited-Same :
    (conf conf' : NsjConf) → Same conf conf' → IsLimited conf → IsWithin conf' → IsLimited conf'
IsLimited-Same conf conf' s h w = subst IsLimited (sym s) (record {
  limited = h.limited;
  small = h.small;
  serves = h.serves;
  within = subst IsWithin s w;
})

IsLimited-shrunk : (conf conf' : NsjConf) → IsShrunk conf conf' → IsLimited conf → IsLimited conf'
IsLimited-shrunk conf conf' s h = subst IsLimited (sym s.settings) (record {
  limited = h.limited;
  small = h.small;
  serves = h.serves;
  within = λ addr. omega (arith, s.fewer addr, h.within addr);
})

abbrev GoesOnLimited : Round → Type 0
GoesOnLimited (returns v) = Unit {0}
GoesOnLimited (continues run) = IsLimited run.conf

abbrev Any : {A : Type 0} → A → Type 0
Any a = Unit {0}

any : {A : Type 0} (k : Kernel) (m : Action A) → Under k Any m
any k m = record { at = λ w e a h. tt }

module _ (k : Kernel) (peered : ArePeered k) (fuel : ℕ) where
  serve-IsLimited :
      (conf : NsjConf) (conn : Option ℕ) → IsLimited conf → Under k IsLimited (serve fuel conf conn)
  unfolding serve
  serve-IsLimited conf none h = Under-pure k IsLimited conf h
  serve-IsLimited conf (some fd) h =
      let (addr, p) = peered (pos fd) in
      let run = subproc_run_child fuel conf (pos fd) (pos fd) (pos fd) in
      Under-then (λ conf'. IsWithin conf' × Same conf conf') IsLimited run _
        (Under-both IsWithin (Same conf) run
          (subproc_run_child-IsWithin k (pos fd) addr p conf h.small h.within fuel (pos fd) (pos fd)
            h.limited h.serves)
          (run_child-Same fuel conf (pos fd) (pos fd) (pos fd)))
        (λ conf' r.
          Ensures-after IsLimited (sys (close (pos fd))) _
            (λ _. Ensures-pure IsLimited {a = conf'} (IsLimited-Same conf conf' r.1 h r.0)))

  accept_round-IsLimited :
      (listenfd : ℤ) (conf : NsjConf) (flags : Flags)
      → IsLimited conf
      → Under k GoesOnLimited (accept_round fuel listenfd conf flags)
  unfolding accept_round
  accept_round-IsLimited listenfd conf flags h =
      let G = GoesOnLimited in
      Under-bind Any G (show_if_asked conf flags) _ (show_if_asked-Quiet conf flags) (any k _)
        (λ f _.
          Under-bind Any G (net_accept_conn listenfd) _ (net_accept_conn-Quiet listenfd) (any k _)
            (λ conn _.
              Under-then IsLimited G (serve fuel conf conn) _ (serve-IsLimited conf conn h)
                (λ conf' l.
                  Ensures-bind G (λ s. IsShrunk conf' s.0) (subproc_reap fuel fuel conf') _
                    (subproc_reap-Ensures fuel fuel conf')
                    (λ s r.
                      Ensures-pure G {a = continues (record { conf = s.0; flags = f })}
                        (IsLimited-shrunk conf' s.0 r l)))))

  listen_round-IsLimited :
      (listenfd : ℤ) (run : Run)
      → IsLimited run.conf
      → Under k GoesOnLimited (listen_round fuel listenfd run)
  unfolding listen_round
  listen_round-IsLimited listenfd run h =
      let G = GoesOnLimited in
      Under-bind Any G (deliver run.flags) _ (deliver-Quiet run.flags) (any k _) (λ f _.
        Under-if (ltb 0 f.sig_fatal) _ _
          (λ y. Under-Ensures _ (
            Ensures-after G (subproc_kill_all run.conf.pids) _ (λ _.
              Ensures-after G (sys (close listenfd)) _
                (λ _. Ensures-pure G {a = returns (pos 0)} tt))))
          (λ n. accept_round-IsLimited listenfd run.conf f h))

-- Rounds of the listening loop, each with a kernel of its own under which each socket has a peer.
pub data Serves (fuel : ℕ) (listenfd : ℤ) : Run → Run → Type 0 where
  here : {run : Run} → Serves fuel listenfd run run
  round :
      (w : World) {run next last : Run}
      → ArePeered w.kernel
      → (listen_round fuel listenfd run w).0 ≡ value (continues next)
      → Serves fuel listenfd next last
      → Serves fuel listenfd run last

Serves-IsLimited :
    (fuel : ℕ) (listenfd : ℤ) (run last : Run)
    → IsLimited run.conf
    → Serves fuel listenfd run last
    → IsLimited last.conf
Serves-IsLimited fuel listenfd run last h here = h
Serves-IsLimited fuel listenfd run last h (round w {next = next} p e s) =
    Serves-IsLimited fuel listenfd next last
      ((listen_round-IsLimited w.kernel p fuel listenfd run h).at w refl (continues next) e) s

-- After any number of rounds of the listening loop, no address has more children than the limit.
-- That is under a limit from 1 to 2 ^ 32 - 1, in a mode that clones, from a table in which
-- `netLimitConns` counts no address with more, and while within a round each descriptor is a
-- socket with one peer.
pub Serves-conns_from :
    (fuel : ℕ) (listenfd : ℤ) (run last : Run) (addr : List ℕ)
    → IsLimited run.conf
    → Serves fuel listenfd run last
    → conns_from addr last.conf.pids ≤ last.conf.max_conns_per_ip
Serves-conns_from fuel listenfd run last addr h s =
    let l = Serves-IsLimited fuel listenfd run last h s in
    omega (arith, conns_from-le-count_conns addr last.conf.pids, l.within addr)
