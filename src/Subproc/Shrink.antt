-- ===== src/Subproc/Shrink.antt =====
-- subproc.c: `subprocReap` over all its rounds.
use nsjail.Common.{
  ℕ, zero, suc, ◌≤◌, ◌≡◌, refl, ap, ◌∙◌, Bool, true, false, ◌||◌, Option, none, List, [], ◌∷◌, ◌⊎◌,
  inl, inr, Bool-cases, ◌==◌, arith, if◌then◌else◌, get_or,
}
use nsjail.Common.Int.{ℤ, pos, eq_ℤ}
use nsjail.Os.{
  Reply, fail, done, waitid, wait4, time, Action, World, value, pure, sys, failed, ◌>>=◌,
}
use nsjail.Os.Ensures.{
  Ensures, Ensures-pure, Ensures-if, Ensures-after, Ensures-bind, Ensures-map, Ensures-out_of_fuel,
}
use nsjail.Conf.{NsjConf, PidElem}
use nsjail.Net.{count_conns}
use nsjail.Cgroup.{cgroup_finish_from_parent}
use nsjail.Subproc.{
  get_pid_elem, without_pid, close_elem, subproc_remove, si_pid, is_violation,
  subproc_seccomp_violation, rv_of_exit, rv_of_signal, wifexited, wifsignaled, remove_if,
  note_status, collect, reap_child, reap_loop, int_of, kill_overdue, subproc_reap,
}
use nsjail.Subproc.Table.{IsDistinct, get_pid_elem-without_pid, without_pid-IsDistinct}

-- What the children's table may become: some are gone, the others are as they were.
abbrev pub IsSubtable : List PidElem → List PidElem → Type 0
IsSubtable pids pids' =
    (q : ℤ) → (get_pid_elem q pids' ≡ none) ⊎ (get_pid_elem q pids' ≡ get_pid_elem q pids)

pub record IsShrunk (conf conf' : NsjConf) : Type 0 where
  pub settings : conf' ≡ record conf { pids = conf'.pids }
  pub distinct : IsDistinct conf.pids → IsDistinct conf'.pids
  pub table : IsDistinct conf.pids → IsSubtable conf.pids conf'.pids
  pub fewer : (addr : List ℕ) → count_conns addr conf'.pids ≤ count_conns addr conf.pids

IsShrunk-refl : (conf : NsjConf) → IsShrunk conf conf
IsShrunk-refl conf = record {
  settings = refl;
  distinct = λ d. d;
  table = λ d q. inr refl;
  fewer = λ addr. omega arith;
}

subtable_trans :
    {a b c : Option PidElem} → (b ≡ none) ⊎ (b ≡ a) → (c ≡ none) ⊎ (c ≡ b) → (c ≡ none) ⊎ (c ≡ a)
subtable_trans h (inl e) = inl e
subtable_trans (inl h) (inr e) = inl (e ∙ h)
subtable_trans (inr h) (inr e) = inr (e ∙ h)

IsShrunk-trans : (a b c : NsjConf) → IsShrunk a b → IsShrunk b c → IsShrunk a c
IsShrunk-trans a b c h k = record {
  settings =
      (let put : NsjConf → NsjConf = λ x. record x { pids = c.pids } in
        k.settings ∙ ap put h.settings);
  distinct = λ d. k.distinct (h.distinct d);
  table = λ d q. subtable_trans (h.table d q) (k.table (h.distinct d) q);
  fewer = λ addr. omega (arith, h.fewer addr, k.fewer addr);
}

without_pid-IsSubtable :
    (pid : ℤ) (pids : List PidElem) → IsDistinct pids → IsSubtable pids (without_pid pid pids)
without_pid-IsSubtable pid pids d q =
    let e = get_pid_elem-without_pid pid q pids d in
    elim (Bool-cases (eq_ℤ pid q)) [ inl y ↦ inl (e ∙ (rw y refl)) | inr n ↦ inr (e ∙ (rw n refl)) ]

count_conns-without_pid :
    (addr : List ℕ) (pid : ℤ) (pids : List PidElem)
    → count_conns addr (without_pid pid pids) ≤ count_conns addr pids
unfolding count_conns without_pid
count_conns-without_pid addr pid [] = omega arith
count_conns-without_pid addr pid (p ∷ pids) = ground (arith, count_conns-without_pid addr pid pids)

subproc_remove-IsShrunk :
    (conf : NsjConf) (pid : ℤ) → Ensures (IsShrunk conf) (subproc_remove conf pid)
unfolding subproc_remove
subproc_remove-IsShrunk conf pid =
    Ensures-after (IsShrunk conf) (close_elem (get_pid_elem pid conf.pids)) _ (λ _.
      Ensures-pure (IsShrunk conf) {a = record conf { pids = without_pid pid conf.pids }} (record {
        settings = refl;
        distinct = without_pid-IsDistinct pid conf.pids;
        table = without_pid-IsSubtable pid conf.pids;
        fewer = λ addr. count_conns-without_pid addr pid conf.pids;
      }))

-- The same of a configuration that comes with a status.
abbrev Shrunk : NsjConf → NsjConf × ℕ → Type 0
Shrunk conf s = IsShrunk conf s.0

remove_if-Shrunk :
    (b : Bool) (conf : NsjConf) (pid : ℤ) (v rv : ℕ)
    → Ensures (Shrunk conf) (remove_if b conf pid v rv)
unfolding remove_if
remove_if-Shrunk false conf pid v rv =
    Ensures-pure (Shrunk conf) {a = (conf, rv)} (IsShrunk-refl conf)
remove_if-Shrunk true conf pid v rv =
    Ensures-bind (Shrunk conf) (IsShrunk conf) (subproc_remove conf pid) _
      (subproc_remove-IsShrunk conf pid) (λ conf' s. Ensures-pure (Shrunk conf) {a = (conf', v)} s)

-- A second part that shrinks what the first one leaves.
Shrunk-bind :
    {conf : NsjConf} (m : Action (NsjConf × ℕ)) (f : NsjConf × ℕ → Action (NsjConf × ℕ))
    → Ensures (Shrunk conf) m
    → ((s : NsjConf × ℕ) → Ensures (Shrunk s.0) (f s))
    → Ensures (Shrunk conf) (m >>= f)
Shrunk-bind {conf} m f em ef = Ensures-bind (Shrunk conf) (Shrunk conf) m f em (λ s h.
    Ensures-map (Shrunk s.0) (Shrunk conf) (λ r. IsShrunk-trans conf s.0 r.0 h) (f s) (ef s))

note_status-Shrunk :
    (conf : NsjConf) (pid : ℤ) (status rv : ℕ)
    → Ensures (Shrunk conf) (note_status conf pid status rv)
unfolding note_status
note_status-Shrunk conf pid status rv =
    Shrunk-bind (remove_if (wifexited status) conf pid (rv_of_exit status) rv) _
      (remove_if-Shrunk _ conf pid (rv_of_exit status) rv)
      (λ s. remove_if-Shrunk (wifsignaled status) s.0 pid (rv_of_signal status) s.1)

collect-Shrunk :
    (conf : NsjConf) (pid rv : ℕ) (r : Reply) → Ensures (Shrunk conf) (collect conf pid rv r)
unfolding collect
collect-Shrunk conf pid rv (fail e) =
    Ensures-pure (Shrunk conf) {a = (conf, rv)} (IsShrunk-refl conf)
collect-Shrunk conf pid rv (done n out) =
    Ensures-if (Shrunk conf) (n == pid) _ _
      (Ensures-after (Shrunk conf) (cgroup_finish_from_parent conf (pos pid)) _
        (λ _. note_status-Shrunk conf (pos pid) (get_or out 0 0) rv))
      (Ensures-pure (Shrunk conf) {a = (conf, rv)} (IsShrunk-refl conf))

reap_child-Shrunk :
    (fuel : ℕ) (conf : NsjConf) (rv : ℕ) (r : Reply)
    → Ensures (Shrunk conf) (reap_child fuel conf rv r)
unfolding reap_child
reap_child-Shrunk fuel conf rv r =
    Ensures-after (Shrunk conf)
      (if is_violation r then subproc_seccomp_violation fuel conf (pos (si_pid r)) else pure tt) _
      (λ _.
        Ensures-after (Shrunk conf) (sys (wait4 (pos (si_pid r)))) _
          (collect-Shrunk conf (si_pid r) rv))

round-Shrunk :
    (b : Bool) (reads : ℕ) (conf : NsjConf) (rv : ℕ) (r : Reply)
    (rest : NsjConf × ℕ → Action (NsjConf × ℕ))
    → ((s : NsjConf × ℕ) → Ensures (Shrunk s.0) (rest s))
    → Ensures
        (Shrunk conf)
        (elim b [ true ↦ pure (conf, rv) | false ↦ reap_child reads conf rv r >>= rest ])
round-Shrunk true reads conf rv r rest h =
    Ensures-pure (Shrunk conf) {a = (conf, rv)} (IsShrunk-refl conf)
round-Shrunk false reads conf rv r rest h =
    Shrunk-bind (reap_child reads conf rv r) rest (reap_child-Shrunk reads conf rv r) h

reap_loop-Shrunk :
    (fuel reads : ℕ) (conf : NsjConf) (rv : ℕ)
    → Ensures (Shrunk conf) (reap_loop fuel reads conf rv)
unfolding reap_loop
reap_loop-Shrunk zero reads conf rv = Ensures-out_of_fuel (Shrunk conf)
reap_loop-Shrunk (suc fuel) reads conf rv = Ensures-after (Shrunk conf) (sys waitid) _ (λ r.
    round-Shrunk (failed r || si_pid r == 0) reads conf rv r (λ s. reap_loop fuel reads s.0 s.1)
      (λ s. reap_loop-Shrunk fuel reads s.0 s.1))

pub subproc_reap-Ensures :
    (fuel reads : ℕ) (conf : NsjConf)
    → Ensures (λ s. IsShrunk conf s.0) (subproc_reap fuel reads conf)
unfolding subproc_reap
subproc_reap-Ensures fuel reads conf =
    Shrunk-bind (reap_loop fuel reads conf 0) _ (reap_loop-Shrunk fuel reads conf 0) (λ s.
      Ensures-after (Shrunk s.0) (sys time) _ (λ now.
        Ensures-after (Shrunk s.0) (kill_overdue s.0 (int_of now) s.0.pids) _
          (λ _. Ensures-pure (Shrunk s.0) {a = s} (IsShrunk-refl s.0))))

-- What `subprocReap` leaves of a table of distinct pids.
pub record IsReaped (conf conf' : NsjConf) : Type 0 where
  pub settings : conf' ≡ record conf { pids = conf'.pids }
  pub distinct : IsDistinct conf'.pids
  pub table : IsSubtable conf.pids conf'.pids
  pub fewer : (addr : List ℕ) → count_conns addr conf'.pids ≤ count_conns addr conf.pids

-- However many children `subprocReap` finds to have ended, when it returns the settings are as
-- before, a table of distinct pids is still one, in which each pid is as before or gone, and no
-- address is counted with more children than before.
pub subproc_reap-IsReaped :
    (fuel reads : ℕ) (conf conf' : NsjConf) (rv : ℕ) (w : World)
    → IsDistinct conf.pids
    → (subproc_reap fuel reads conf w).0 ≡ value (conf', rv)
    → IsReaped conf conf'
subproc_reap-IsReaped fuel reads conf conf' rv w d h =
    let s = (subproc_reap-Ensures fuel reads conf).at w (conf', rv) h in
    record { settings = s.settings; distinct = s.distinct d; table = s.table d; fewer = s.fewer }
