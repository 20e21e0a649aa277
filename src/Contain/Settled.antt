-- ===== src/Contain/Settled.antt =====
-- contain.c: which descriptors are left open for the program, by either way to find them.
use mathlib.Core.Path.{subst}
use mathlib.Core.List.{append_assoc}
use nsjail.Common.{
  ℕ, zero, suc, ◌^◌, ◌<◌, ◌≡◌, refl, sym, ap, ◌∙◌, Bool, true, false, not, ◌||◌, List, [], ◌∷◌,
  ◌++◌, if◌then◌else◌, arith,
}
use nsjail.Common.Text.{eq_bytes}
use nsjail.Os.{
  CString, strtoul, readdir, closedir, opendir_fds, Reply, fail, done, Event, World, value, sys,
  pure, Action, ◌>>◌, ◌and_then◌,
}
use nsjail.Os.Laws.{>>=-eq-value, >>=-value}
use nsjail.Os.Done.{and_then-true}
use nsjail.Conf.{NsjConf}
use nsjail.Contain.{
  is_dots, close_false, coe_entry, proc_loop, contain_make_fds_coe_proc, contain_make_fds_coe,
  contain_make_fds_coe_naive,
}
use nsjail.Os.Quiet.{added}
use nsjail.Contain.Kept.{contain_make_fds_coe_proc-Quiet}
use nsjail.Contain.Descriptors.{settled, settled-append, after, contain_make_fds_coe_naive-Settles}
use nsjail.Contain.Listed.{
  has_open, has_open-append, has_entry, has_entry-append, Marks, Reads, coe_entry-Marks,
}

module _ (conf : NsjConf) (fd : ℕ) (name : CString) (small : fd < 2 ^ 31)
    (no_dots : is_dots name ≡ false) where
  -- The directory has been read to its end, and the descriptor is settled if it was found.
  record ReadWhole (w w' : World) : Type 0 where
    earlier : List Event
    closed : Reply
    end : List ℕ
    log : w'.log ≡ (closedir, closed) ∷ (readdir, done 0 end) ∷ (earlier ++ w.log)
    none_opened : has_open earlier ≡ false
    marked : not (has_entry name earlier) || settled conf fd earlier ≡ true

  entry_first :
      (n : ℕ) (text : CString) (w w1 w2 : World)
      → Marks conf fd name (eq_bytes text name) (after readdir (done (suc n) text) w) w1
      → ReadWhole w1 w2
      → ReadWhole w w2
  entry_first n text w w1 w2 m r =
      let entry : List Event = (readdir, done (suc n) text) ∷ [] in
      record {
        earlier = r.earlier ++ (m.new ++ entry);
        closed = r.closed;
        end = r.end;
        log =
            r.log
            ∙ ap (λ l. (closedir, r.closed) ∷ (readdir, done 0 r.end) ∷ l)
                (ap (λ l. r.earlier ++ l) (m.log ∙ sym (append_assoc m.new entry w.log))
                  ∙ sym (append_assoc r.earlier (m.new ++ entry) w.log));
        none_opened = ground (
          arith,
          has_open-append r.earlier (m.new ++ entry),
          has_open-append m.new entry,
          r.none_opened,
          m.none_opened,
        );
        marked = ground (
          arith,
          settled-append conf fd r.earlier (m.new ++ entry),
          settled-append conf fd m.new entry,
          has_entry-append name r.earlier (m.new ++ entry),
          has_entry-append name m.new entry,
          r.marked,
          m.marked,
          m.none_read,
        );
      }

  -- The loop after `readdir`.
  abbrev on_entry : ℕ → Reply → Action Bool
  on_entry fuel r = elim r [
    | fail e ↦ close_false
    | done zero out ↦ sys closedir >> pure true
    | done (suc n) text ↦ coe_entry conf text and_then proc_loop fuel conf
  ]

  proc_loop-ReadWhole :
      (fuel : ℕ) (w : World)
      → Reads conf fd name w
      → (proc_loop fuel conf w).0 ≡ value true
      → ReadWhole w (proc_loop fuel conf w).1
  unfolding proc_loop
  proc_loop-ReadWhole zero w p h = absurd (ground arith)
  proc_loop-ReadWhole (suc fuel) w p h = go (w.kernel w.log readdir) (proc_loop-ReadWhole fuel) h
    where
      go :
          (r : Reply)
          → ((v : World)
              → Reads conf fd name v
              → (proc_loop fuel conf v).0 ≡ value true
              → ReadWhole v (proc_loop fuel conf v).1)
          → (on_entry fuel r (after readdir r w)).0 ≡ value true
          → ReadWhole w (on_entry fuel r (after readdir r w)).1
      go (fail e) ih h = absurd (ground arith)
      go (done zero out) ih h = record {
        earlier = [];
        closed = w.kernel ((readdir, done 0 out) ∷ w.log) closedir;
        end = out;
        log = refl;
        none_opened = refl;
        marked = refl;
      }
      go (done (suc n) text) ih h =
          let w1 : World = after readdir (done (suc n) text) w in
          let (first, e) = and_then-true (coe_entry conf text) (proc_loop fuel conf) w1 h in
          let w2 : World = (coe_entry conf text w1).1 in
          let m = coe_entry-Marks conf fd name small no_dots text w1 p first in
          let reads : Reads conf fd name w2 =
            λ log. ap (λ k. k log (strtoul name 10)) m.kernel ∙ p log in
          subst (λ r. ReadWhole w r.1) (sym e)
            (entry_first n text w w2 (proc_loop fuel conf w2).1 m
              (ih w2 reads (ap (λ r. r.0) (sym e) ∙ h)))

-- How a descriptor of that name has been dealt with by the calls since `start`. Either the calls end
-- with a reading of /proc/self/fd to its end, and since it was opened the descriptor has been settled
-- if an entry of that name was found; or the numbers have been gone through in the last calls, and
-- each one below 1024 is settled.
pub data IsSettled (conf : NsjConf) (fd : ℕ) (name : CString) (start log : List Event)
    : Type 0 where
  by_listing :
      (earlier before : List Event) (closed : Reply) (end : List ℕ) (n : ℕ) (out : List ℕ)
      → log
        ≡ (closedir, closed)
          ∷ (readdir, done 0 end)
          ∷ (earlier ++ (opendir_fds, done n out) ∷ (before ++ start))
      → has_open earlier ≡ false
      → not (has_entry name earlier) || settled conf fd earlier ≡ true
      → IsSettled conf fd name start log
  by_number :
      (new before : List Event)
      → log ≡ new ++ (before ++ start)
      → ((q : ℕ) → q < 1024 → settled conf q new ≡ true)
      → IsSettled conf fd name start log

-- It is so from earlier on.
pub IsSettled-earlier :
    (conf : NsjConf) (fd : ℕ) (name : CString) (mid start log : List Event)
    → IsSettled conf fd name (mid ++ start) log
    → IsSettled conf fd name start log
IsSettled-earlier conf fd name mid start log (by_listing earlier before closed end n out e o m) =
    by_listing earlier (before ++ mid) closed end n out
      (e
        ∙ ap
            (λ l.
              (closedir, closed)
              ∷ (readdir, done 0 end)
              ∷ (earlier ++ (opendir_fds, done n out) ∷ l))
            (sym (append_assoc before mid start)))
      o m
IsSettled-earlier conf fd name mid start log (by_number new before e all) =
    by_number new (before ++ mid) (e ∙ ap (λ l. new ++ l) (sym (append_assoc before mid start))) all

module _ (conf : NsjConf) (fd : ℕ) (name : CString) where
  abbrev on_opened : ℕ → Reply → Action Bool
  on_opened fuel r = elim r [ fail e ↦ pure false | done n out ↦ proc_loop fuel conf ]

  listed-IsSettled :
      (small : fd < 2 ^ 31) (no_dots : is_dots name ≡ false) (w : World) (r : Reply) (fuel : ℕ)
      → Reads conf fd name w
      → (on_opened fuel r (after opendir_fds r w)).0 ≡ value true
      → IsSettled conf fd name w.log (on_opened fuel r (after opendir_fds r w)).1.log
  listed-IsSettled small no_dots w (fail e) fuel p h = absurd (ground arith)
  listed-IsSettled small no_dots w (done n out) fuel p h =
      let v : World = after opendir_fds (done n out) w in
      let r = proc_loop-ReadWhole conf fd name small no_dots fuel v p h in
      by_listing r.earlier [] r.closed r.end n out r.log r.none_opened r.marked

  numbered-IsSettled :
      (w : World)
      → (contain_make_fds_coe_naive conf w).0 ≡ value true
      → IsSettled conf fd name w.log (contain_make_fds_coe_naive conf w).1.log
  numbered-IsSettled w h =
      let s = contain_make_fds_coe_naive-Settles conf w h in
      by_number s.new [] s.log (λ q b. s.all q (omega arith) (omega arith))

  -- Whichever way the descriptors are found.
  pub contain_make_fds_coe-IsSettled :
      (fuel : ℕ) (w : World)
      → fd < 2 ^ 31
      → is_dots name ≡ false
      → ((log : List Event) → w.kernel log (strtoul name 10) ≡ done fd [])
      → (contain_make_fds_coe fuel conf w).0 ≡ value true
      → IsSettled conf fd name w.log (contain_make_fds_coe fuel conf w).1.log
  unfolding contain_make_fds_coe contain_make_fds_coe_proc
  contain_make_fds_coe-IsSettled fuel w small no_dots p h =
      let next : Bool → Action Bool =
        λ ok. if ok then pure true else contain_make_fds_coe_naive conf in
      let (ok, first, second) = >>=-eq-value next true (contain_make_fds_coe_proc fuel conf) w h in
      let v : World = (contain_make_fds_coe_proc fuel conf w).1 in
      subst (λ r. IsSettled conf fd name w.log r.1.log)
        (sym (>>=-value next (contain_make_fds_coe_proc fuel conf) w ok v (ap (λ r. (r, v)) first)))
        (go ok first second)
    where
      go :
          (ok : Bool)
          → (contain_make_fds_coe_proc fuel conf w).0 ≡ value ok
          → ((if ok then pure true else contain_make_fds_coe_naive conf)
              (contain_make_fds_coe_proc fuel conf w).1).0
            ≡ value true
          → IsSettled conf fd name w.log
              ((if ok then pure true else contain_make_fds_coe_naive conf)
                (contain_make_fds_coe_proc fuel conf w).1).1.log
      go true first second =
          listed-IsSettled small no_dots w (w.kernel w.log opendir_fds) fuel p first
      go false first second =
          let v : World = (contain_make_fds_coe_proc fuel conf w).1 in
          let (tried, e) =
            added (contain_make_fds_coe_proc fuel conf) (contain_make_fds_coe_proc-Quiet conf fuel)
              w in
          IsSettled-earlier conf fd name tried w.log _ (
            subst (λ l. IsSettled conf fd name l (contain_make_fds_coe_naive conf v).1.log) e
              (numbered-IsSettled v second))
