-- ===== src/Util/Put.antt =====
-- util.c: what `utilWriteBufToFile` leaves in a file.
use mathlib.Core.Path.{subst}
use mathlib.Core.List.{append_assoc, append-nil}
use nsjail.Common.{
  ℕ, ◌≡◌, refl, sym, ap, ◌∙◌, Bool, true, false, List, [], ◌∷◌, ◌++◌, arith, if◌then◌else◌,
}
use nsjail.Common.Int.{pos}
use nsjail.Os.{
  CString, Reply, Event, World, open_file, close, unlink, fail, done, value, Action, pure, sys,
  ◌>>◌,
}
use nsjail.Os.Quiet.{added}
use nsjail.Os.Laws.{>>=-eq-value, >>=-value}
use nsjail.Os.Done.{Makes, IsLasting}
use nsjail.Util.{util_write_to_fd, write_opened, util_write_buf_to_file}
use nsjail.Util.Kept.{util_write_to_fd-Quiet}
use nsjail.Util.Write.{written, util_write_to_fd-written}

-- The file has been opened, and has then taken the text, all of it and in order.
pub record IsPut (name : CString) (flags : ℕ) (text : List ℕ) (log : List Event) : Type 0 where
  pub fd : ℕ
  pub out : List ℕ
  pub earlier : List Event
  pub between : List Event
  pub later : List Event
  pub calls : log ≡ later ++ (between ++ (open_file name flags, done fd out) ∷ earlier)
  pub text_taken :
      written (pos fd) (between ++ (open_file name flags, done fd out) ∷ earlier)
      ≡ written (pos fd) earlier ++ text

pub IsPut-IsLasting :
    (name : CString) (flags : ℕ) (text : List ℕ) → IsLasting (IsPut name flags text)
IsPut-IsLasting name flags text new log p = record {
  fd = p.fd;
  out = p.out;
  earlier = p.earlier;
  between = p.between;
  later = new ++ p.later;
  calls = ap (λ l. new ++ l) p.calls ∙ sym (append_assoc new p.later _);
  text_taken = p.text_taken;
}

-- After `open`, in the world `w`.
opened-IsPut :
    (fuel : ℕ) (name : CString) (flags : ℕ) (text : List ℕ) (fd : ℕ) (out : List ℕ) (w : World)
    (earlier : List Event)
    → w.log ≡ (open_file name flags, done fd out) ∷ earlier
    → (write_opened fuel name text fd w).0 ≡ value true
    → IsPut name flags text (write_opened fuel name text fd w).1.log
unfolding write_opened
opened-IsPut fuel name flags text fd out w earlier o h =
    let finish : Bool → Action Bool = λ ok.
      if ok
      then sys (close (pos fd)) >> pure true
      else sys (close (pos fd)) >> sys (unlink name) >> pure false in
    let write_all = util_write_to_fd fuel (pos fd) text in
    let (ok, first, second) = >>=-eq-value finish true write_all w h in
    let (between, e) = added write_all (util_write_to_fd-Quiet fuel (pos fd) text) w in
    subst (λ r. IsPut name flags text r.1.log)
      (sym (>>=-value finish write_all w ok (write_all w).1 (ap (λ r. (r, (write_all w).1)) first)))
      (closed ok between first second (e ∙ ap (λ l. between ++ l) o))
  where
    closed :
        (ok : Bool) (between : List Event)
        → (util_write_to_fd fuel (pos fd) text w).0 ≡ value ok
        → ((if ok
              then sys (close (pos fd)) >> pure true
              else sys (close (pos fd)) >> sys (unlink name) >> pure false)
            (util_write_to_fd fuel (pos fd) text w).1).0
          ≡ value true
        → (util_write_to_fd fuel (pos fd) text w).1.log
          ≡ between ++ (open_file name flags, done fd out) ∷ earlier
        → IsPut name flags text
            ((if ok
                then sys (close (pos fd)) >> pure true
                else sys (close (pos fd)) >> sys (unlink name) >> pure false)
              (util_write_to_fd fuel (pos fd) text w).1).1.log
    closed false between first second e = absurd (ground arith)
    closed true between first second e =
        let w2 = (util_write_to_fd fuel (pos fd) text w).1 in
        record {
          fd = fd;
          out = out;
          earlier = earlier;
          between = between;
          later = (close (pos fd), w2.kernel w2.log (close (pos fd))) ∷ [];
          calls = ap (λ l. (close (pos fd), w2.kernel w2.log (close (pos fd))) ∷ l) e;
          text_taken =
              sym (ap (written (pos fd)) e)
              ∙ (util_write_to_fd-written fuel (pos fd) text w first
                  ∙ (ap (λ l. written (pos fd) l ++ text) o
                      ∙ ap (λ l. l ++ text) (append-nil (written (pos fd) earlier))));
        }

-- If `utilWriteBufToFile` returns true, the file has been opened and has taken the whole text.
pub util_write_buf_to_file-IsPut :
    (fuel : ℕ) (name : CString) (text : List ℕ) (flags : ℕ)
    → Makes (IsPut name flags text) (util_write_buf_to_file fuel name text flags)
unfolding util_write_buf_to_file
util_write_buf_to_file-IsPut fuel name text flags = record {
  at = λ w h. opened (w.kernel w.log (open_file name flags)) w h;
}
  where
    opened :
        (r : Reply) (w : World)
        → let w1 : World = record w { log = (open_file name flags, r) ∷ w.log } in
          let go : Action Bool = elim r [
            | fail e ↦ pure false
            | done fd out ↦ write_opened fuel name text fd
          ] in
          (go w1).0 ≡ value true → IsPut name flags text (go w1).1.log
    opened (fail e) w h = absurd (ground arith)
    opened (done fd out) w h =
        opened-IsPut fuel name flags text fd out
          (record w { log = (open_file name flags, done fd out) ∷ w.log }) w.log refl h
