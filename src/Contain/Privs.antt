-- ===== src/Contain/Privs.antt =====
-- contain.c: privileges, limits and the environment, as the calls leave the process.
use nsjail.Common.{ℕ, zero, suc, ◌+◌, ◌≡◌, refl, true, false, Bool, some, [], arith}
use nsjail.Os.{
  Reply, fail, done, prctl, setgroups_none, setresgid, setresuid, capset_none, pure, sys, succeeds,
}
use nsjail.Conf.{NsjConf}
use nsjail.Contain.{
  drop_bounding, drop_caps, set_no_new_privs, contain_drop_privs, contain_set_limits, is_einval,
}
use nsjail.Contain.State.{Proc, effect, HasDropped, IsLimited}
use nsjail.Contain.State.Rules.{
  Ensures, OnTrue, Always, Ensures-bind, Ensures-pure, Ensures-if, Ensures-sys, Ensures-and_then,
  Ensures-succeeds,
}

abbrev pub Any : Proc → Type 0
Any p = Unit {0}

module _ (conf : NsjConf) where
  abbrev HasGid : Proc → Type 0
  HasGid p = p.gid ≡ some conf.inside_gid

  abbrev HasIds : Proc → Type 0
  HasIds p = (p.gid ≡ some conf.inside_gid) × (p.uid ≡ some conf.inside_uid)

  no_new_privs_keeps : (r : Reply) (p : Proc) → HasIds p → HasIds (effect (prctl 38 1, r) p)
  no_new_privs_keeps (fail e) p h = h
  no_new_privs_keeps (done n out) p h = h

  bounding_keeps : (i : ℕ) (r : Reply) (p : Proc) → HasIds p → HasIds (effect (prctl 24 i, r) p)
  bounding_keeps i (fail e) p h = h
  bounding_keeps i (done n out) p h = h

  drop_bounding-HasIds : (n i : ℕ) → Ensures HasIds (drop_bounding n i) (Always HasIds)
  unfolding drop_bounding
  drop_bounding-HasIds zero i = Ensures-pure tt (λ p h. h)
  drop_bounding-HasIds (suc n) i =
      Ensures-bind (sys (prctl 24 i)) _ (Ensures-sys (prctl 24 i) (bounding_keeps i))
        (λ r. go (is_einval r) (drop_bounding-HasIds n (i + 1)))
    where
      go :
          (b : Bool)
          → Ensures HasIds (drop_bounding n (i + 1)) (Always HasIds)
          → Ensures HasIds
              (elim b [ true ↦ pure tt | false ↦ drop_bounding n (i + 1) ])
              (Always HasIds)
      go true ih = Ensures-pure tt (λ p h. h)
      go false ih = ih

  drop_caps-HasDropped : Ensures HasIds (drop_caps conf) (OnTrue (HasDropped conf))
  unfolding drop_caps
  drop_caps-HasDropped =
      Ensures-if conf.keep_caps (pure true) _
        (λ keep. Ensures-pure true (λ p h _. record { gid = h.0; uid = h.1; caps = ground arith }))
        (λ drop. Ensures-bind (drop_bounding 128 0) _ (drop_bounding-HasIds 128 0) (λ _.
          Ensures-and_then (succeeds (prctl 8 0)) (succeeds capset_none)
            (Ensures-succeeds (prctl 8 0) (λ n out p h. h))
            (Ensures-succeeds capset_none
              (λ n out p h. record { gid = h.0; uid = h.1; caps = ground arith }))))

  set_no_new_privs-HasIds : Ensures HasIds (set_no_new_privs conf) (Always HasIds)
  unfolding set_no_new_privs
  set_no_new_privs-HasIds =
      Ensures-if conf.disable_no_new_privs _ _ (λ _. Ensures-pure (done 0 []) (λ p h. h))
        (λ _. Ensures-sys (prctl 38 1) no_new_privs_keeps)

  -- If `containDropPrivs` returns true, the process has the group and the user of the jail, and
  -- no capabilities unless `keep_caps` is set.
  pub contain_drop_privs-HasDropped :
      Ensures Any (contain_drop_privs conf) (OnTrue (HasDropped conf))
  unfolding contain_drop_privs
  contain_drop_privs-HasDropped =
      Ensures-bind (sys setgroups_none) _ (Ensures-sys {Q = Always Any} setgroups_none (λ r p h. h))
        (λ _.
          Ensures-and_then (succeeds (setresgid conf.inside_gid)) _
            (Ensures-succeeds {Q = HasGid} (setresgid conf.inside_gid) (λ n out p h. refl))
            (Ensures-and_then (succeeds (setresuid conf.inside_uid)) _
              (Ensures-succeeds (setresuid conf.inside_uid) (λ n out p h. (h, refl)))
              (Ensures-bind (set_no_new_privs conf) _ set_no_new_privs-HasIds
                (λ _. drop_caps-HasDropped))))

  pub contain_set_limits-IsLimited :
      Ensures
        (HasDropped conf)
        (contain_set_limits conf)
        (OnTrue (λ p. HasDropped conf p × IsLimited conf p))
  unfolding contain_set_limits
  contain_set_limits-IsLimited = record { at = λ w h b e t. ground arith }
