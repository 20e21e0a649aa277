-- ===== src/Subproc/Child/Exec.antt =====
-- subproc.c: a program is executed only in a process that is confined and sandboxed.
use mathlib.Core.Path.{subst}
use nsjail.Contain.Privs.{Any}
use nsjail.Common.{
  ℕ, ◌≡◌, ◌∙◌, sym, ap, refl, Bool, true, false, List, [], ◌∷◌, some, arith, if◌then◌else◌, inl,
  inr, Bool-cases,
}
use nsjail.Common.Int.{ℤ}
use nsjail.Seccomp.Insn.{SockFilter}
use nsjail.Os.{CString, clearenv, putenv, World, value, Action, pure, exit, sys}
use nsjail.Conf.{NsjConf}
use nsjail.Contain.{contain_setup_fd, contain_contain}
use nsjail.Contain.State.{Proc, state, IsConfined}
use nsjail.Contain.State.Rules.{
  Ensures, Keeps, Keeps-sys, Keeps-pure, Keeps-bind, Keeps-if, Always, OnTrue, Ensures-bind,
  Ensures-pure,
}
use nsjail.Contain.Whole.{contain_contain-IsConfined}
use nsjail.Sandbox.{sandbox_apply}
use nsjail.Sandbox.Policy.{IsPolicy, IsCommitted, sandbox_apply-enforces, sandbox_apply_off}
use nsjail.Subproc.Child.{or_exit, put_envs, set_env, prepare_proc, init_namespaces}

-- The process is under a filter that decides as the policy does, for good.
pub record IsSandboxed (p : Proc) : Type 0 where
  pub prog : List SockFilter
  pub filter : p.filter ≡ some prog
  pub policy : IsPolicy prog
  pub for_good : p.no_new_privs ≡ true

-- That, if it is to be.
abbrev pub Sandboxed : Bool → Proc → Type 0
Sandboxed false p = Unit {0}
Sandboxed true p = IsSandboxed p

abbrev pub IsReady : NsjConf → Proc → Type 0
IsReady conf p = IsConfined conf p × Sandboxed conf.apply_sandbox p

put_envs-Keeps : {P : Proc → Type 0} (envs : List CString) → Keeps P (put_envs envs)
unfolding put_envs
put_envs-Keeps [] = Keeps-pure tt
put_envs-Keeps (e ∷ envs) =
    Keeps-bind (sys (putenv e)) _ (Keeps-sys (putenv e) (λ r p h. h)) (λ _. put_envs-Keeps envs)

set_env-Keeps : {P : Proc → Type 0} (conf : NsjConf) → Keeps P (set_env conf)
unfolding set_env
set_env-Keeps conf =
    Keeps-bind _ _
      (Keeps-if conf.keep_env _ _ (Keeps-pure tt)
        (Keeps-bind (sys clearenv) _ (Keeps-sys clearenv (λ r p h. h)) (λ _. Keeps-pure tt)))
      (λ _. put_envs-Keeps conf.envs)

-- The effect of the two calls that put the policy in force.
IsConfined-committed :
    (conf : NsjConf) (prog : List SockFilter) (p : Proc)
    → IsConfined conf p
    → IsConfined conf (record p { no_new_privs = true; filter = some prog })
IsConfined-committed conf prog p h = record {
  dropped = record { gid = h.dropped.gid; uid = h.dropped.uid; caps = h.dropped.caps };
  limited = record {
    as_ = h.limited.as_;
    core = h.limited.core;
    cpu = h.limited.cpu;
    fsize = h.limited.fsize;
    nofile = h.limited.nofile;
    nproc = h.limited.nproc;
    stack = h.limited.stack;
  };
  pdeathsig = h.pdeathsig;
}

sandbox_apply-IsReady :
    (conf : NsjConf) → Ensures (IsConfined conf) (sandbox_apply conf) (OnTrue (IsReady conf))
sandbox_apply-IsReady conf = record { at = λ w p b e t. go w p (e ∙ ap value t) }
  where
    on :
        (prog : List SockFilter) (w w' : World)
        → IsConfined conf (state w.log)
        → IsPolicy prog
        → IsCommitted prog w w'
        → conf.apply_sandbox ≡ true
        → IsReady conf (state w'.log)
    on prog w w' p policy c applied =
        subst (λ log. IsReady conf (state log)) (sym c.calls)
          (
            IsConfined-committed conf prog (state w.log) p,
            subst
                (λ b.
                  Sandboxed b (record (state w.log) { no_new_privs = true; filter = some prog }))
                (sym applied)
                (record { prog = prog; filter = refl; policy = policy; for_good = refl }),
          )

    go :
        (w : World)
        → IsConfined conf (state w.log)
        → (sandbox_apply conf w).0 ≡ value true
        → IsReady conf (state (sandbox_apply conf w).1.log)
    go w p e = elim (Bool-cases conf.apply_sandbox) [
      | inl y ↦
          let (prog, policy, c) = sandbox_apply-enforces conf w y e in
          on prog w (sandbox_apply conf w).1 p policy c y
      | inr n ↦
          subst (λ r. IsReady conf (state r.1.log)) (sym (sandbox_apply_off conf w n))
            (p, subst (λ b. Sandboxed b (state w.log)) (sym n) tt)
    ]

or_exit-Ensures :
    {P Q : Proc → Type 0} (m : Action Bool)
    → Ensures P m (OnTrue Q)
    → Ensures P (or_exit m) (Always Q)
or_exit-Ensures {Q} m em = Ensures-bind m _ em go
  where
    go : (ok : Bool) → Ensures (OnTrue Q ok) (if ok then pure tt else exit 1) (Always Q)
    go true = Ensures-pure tt (λ p h. h refl)
    go false = record { at = λ w p b e. absurd (ground arith) }

any : {A : Type 0} (m : Action A) → Ensures Any m (Always Any)
any m = record { at = λ w p a e. tt }

contain_contain-Ensures :
    (fuel : ℕ) (conf : NsjConf) → Ensures Any (contain_contain fuel conf) (OnTrue (IsConfined conf))
contain_contain-Ensures fuel conf = record {
  at = λ w p b e t. contain_contain-IsConfined fuel conf w (e ∙ ap value t);
}

-- When `subprocNewProc` comes to its `execv`, whatever the kernel has answered, the process is
-- confined as the configuration says and, if the sandbox is to be applied, is under a seccomp
-- program that decides as `verdict` does, with no way to gain privileges.
pub prepare_proc-IsReady :
    (fuel : ℕ) (conf : NsjConf) (fd_in fd_out fd_err pipefd : ℤ) (w : World)
    → (prepare_proc fuel conf fd_in fd_out fd_err pipefd w).0 ≡ value tt
    → IsReady conf (state (prepare_proc fuel conf fd_in fd_out fd_err pipefd w).1.log)
unfolding prepare_proc
prepare_proc-IsReady fuel conf fd_in fd_out fd_err pipefd w h =
    (Ensures-bind {Q = Always Any} _ _ (any (or_exit (contain_setup_fd conf fd_in fd_out fd_err)))
        (λ _. Ensures-bind {Q = Always Any} _ _ (any (init_namespaces fuel conf pipefd)) (λ _.
          Ensures-bind _ _
            (or_exit-Ensures (contain_contain fuel conf) (contain_contain-Ensures fuel conf))
            (λ _.
              Ensures-bind (set_env conf) _ (set_env-Keeps conf)
                (λ _. or_exit-Ensures (sandbox_apply conf) (sandbox_apply-IsReady conf)))))).at
      w tt tt h
