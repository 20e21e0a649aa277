-- ===== src/Cmdline/Flags/Cases.antt =====
-- cmdline.c: what each part of the switch makes of the Boolean settings, case by case.
use nsjail.Common.{ℕ, ◌≡◌, refl, some}
use nsjail.Os.{CString, Action}
use nsjail.Os.Ensures.{Ensures, Ensures-after, Ensures-pure}
use nsjail.Conf.{NsjConf}
use nsjail.Cmdline.Switch.{
  Parse, flag_option, text_option, persona_option, local_option, list_option,
}
use nsjail.Cmdline.Loop.{limit_option, set_number, set_long, set_tmpfs_size}
use nsjail.Cmdline.Flags.{Sets, SetsIn, case_of, default_of}

pub flag_option-Sets :
    (c : ℕ) (conf conf' : NsjConf) → flag_option c conf ≡ some conf' → Sets c conf conf'
unfolding flag_option
flag_option-Sets c conf conf' =
    case_of (λ c. Sets c conf) c b'd' refl
      (case_of (λ c. Sets c conf) c b'v' refl
        (case_of (λ c. Sets c conf) c b'e' refl
          (case_of (λ c. Sets c conf) c b'N' refl
            (case_of (λ c. Sets c conf) c 0x402 refl
              (case_of (λ c. Sets c conf) c 0x403 refl
                (case_of (λ c. Sets c conf) c 0x404 refl
                  (case_of (λ c. Sets c conf) c 0x405 refl
                    (case_of (λ c. Sets c conf) c 0x406 refl
                      (case_of (λ c. Sets c conf) c 0x407 refl
                        (case_of (λ c. Sets c conf) c 0x501 refl
                          (case_of (λ c. Sets c conf) c 0x502 refl
                            (case_of (λ c. Sets c conf) c 0x503 refl
                              (case_of (λ c. Sets c conf) c 0x504 refl
                                (case_of (λ c. Sets c conf) c 0x507 refl
                                  (case_of (λ c. Sets c conf) c 0x506 refl
                                    (case_of (λ c. Sets c conf) c 0x601 refl
                                      (case_of (λ c. Sets c conf) c 0x603 refl
                                        (case_of (λ c. Sets c conf) c 0x700 refl
                                          (default_of _)))))))))))))))))))

pub text_option-Sets :
    (c : ℕ) (arg : CString) (conf conf' : NsjConf)
    → text_option c arg conf ≡ some conf'
    → Sets c conf conf'
unfolding text_option
text_option-Sets c arg conf conf' =
    case_of (λ c. Sets c conf) c b'H' refl
      (case_of (λ c. Sets c conf) c b'D' refl
        (case_of (λ c. Sets c conf) c b'c' refl
          (case_of (λ c. Sets c conf) c 0x604 refl
            (case_of (λ c. Sets c conf) c b'I' refl
              (case_of (λ c. Sets c conf) c 0x701 refl
                (case_of (λ c. Sets c conf) c 0x702 refl
                  (case_of (λ c. Sets c conf) c 0x703 refl
                    (case_of (λ c. Sets c conf) c 0x802 refl
                      (case_of (λ c. Sets c conf) c 0x803 refl
                        (case_of (λ c. Sets c conf) c b'E' refl (default_of _)))))))))))

pub persona_option-Sets :
    (c : ℕ) (conf conf' : NsjConf) → persona_option c conf ≡ some conf' → Sets c conf conf'
unfolding persona_option
persona_option-Sets c conf conf' =
    case_of (λ c. Sets c conf) c 0x301 refl
      (case_of (λ c. Sets c conf) c 0x302 refl
        (case_of (λ c. Sets c conf) c 0x303 refl
          (case_of (λ c. Sets c conf) c 0x304 refl
            (case_of (λ c. Sets c conf) c 0x305 refl (default_of _)))))

pub local_option-Sets :
    (c : ℕ) (arg : CString) (p p' : Parse) → local_option c arg p ≡ some p' → SetsIn c p p'
unfolding local_option
local_option-Sets c arg p p' =
    case_of (λ c. SetsIn c p) c b'u' refl
      (case_of (λ c. SetsIn c p) c b'g' refl (case_of (λ c. SetsIn c p) c b'l' refl (default_of _)))

pub list_option-Sets :
    (c : ℕ) (arg : CString) (p p' : Parse) → list_option c arg p ≡ some p' → SetsIn c p p'
unfolding list_option
list_option-Sets c arg p p' =
    case_of (λ c. SetsIn c p) c b'U' refl
      (case_of (λ c. SetsIn c p) c b'G' refl
        (case_of (λ c. SetsIn c p) c b'R' refl
          (case_of (λ c. SetsIn c p) c b'B' refl
            (case_of (λ c. SetsIn c p) c b'T' refl (default_of _)))))

pub set_number-Sets : (c n : ℕ) (p p' : Parse) → set_number c n p ≡ some p' → SetsIn c p p'
unfolding set_number set_tmpfs_size
set_number-Sets c n p p' =
    case_of (λ c. SetsIn c p) c b'p' refl
      (case_of (λ c. SetsIn c p) c b'i' refl
        (case_of (λ c. SetsIn c p) c 0x602 refl
          (case_of (λ c. SetsIn c p) c 0x801 refl (default_of _))))

pub set_long-Sets : (c n : ℕ) (p p' : Parse) → set_long c n p ≡ some p' → SetsIn c p p'
unfolding set_long
set_long-Sets c n p p' =
    case_of (λ c. SetsIn c p) c b't' refl (case_of (λ c. SetsIn c p) c 0x505 refl (default_of _))

pub limit_option-Sets :
    (c : ℕ) (arg : CString) (conf : NsjConf) (m : Action NsjConf)
    → limit_option c arg conf ≡ some m
    → Ensures (Sets c conf) m
unfolding limit_option
limit_option-Sets c arg conf m =
    case_of (λ c. Ensures (Sets c conf)) c 0x201 (Ensures-after _ _ _ (λ v. Ensures-pure _ refl))
      (case_of (λ c. Ensures (Sets c conf)) c 0x202 (Ensures-after _ _ _ (λ v. Ensures-pure _ refl))
        (case_of (λ c. Ensures (Sets c conf)) c 0x203
          (Ensures-after _ _ _ (λ v. Ensures-pure _ refl))
          (case_of (λ c. Ensures (Sets c conf)) c 0x204
            (Ensures-after _ _ _ (λ v. Ensures-pure _ refl))
            (case_of (λ c. Ensures (Sets c conf)) c 0x205
              (Ensures-after _ _ _ (λ v. Ensures-pure _ refl))
              (case_of (λ c. Ensures (Sets c conf)) c 0x206
                (Ensures-after _ _ _ (λ v. Ensures-pure _ refl))
                (case_of (λ c. Ensures (Sets c conf)) c 0x207
                  (Ensures-after _ _ _ (λ v. Ensures-pure _ refl)) (default_of _)))))))
