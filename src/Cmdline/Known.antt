-- ===== src/Cmdline/Known.antt =====
-- cmdline.c: which options the switch of `cmdlineParse` knows, and which of them read `optarg`.
use nsjail.Common.{ℕ, ◌≡◌, Bool, ◌||◌, ◌==◌, arith}
use nsjail.Os.{CString}
use nsjail.Os.Quiet.{is_some}
use nsjail.Conf.{NsjConf}
use nsjail.Cmdline.Switch.{
  Parse, flag_option, text_option, persona_option, local_option, list_option,
}
use nsjail.Cmdline.Loop.{limit_option}

abbrev pub is_flag : ℕ → Bool
is_flag c =
    c == b'd'
    || (c == b'v'
        || (c == b'e'
            || (c == b'N'
                || (c == 0x402
                    || (c == 0x403
                        || (c == 0x404
                            || (c == 0x405
                                || (c == 0x406
                                    || (c == 0x407
                                        || (c == 0x501
                                            || (c == 0x502
                                                || (c == 0x503
                                                    || (c == 0x504
                                                        || (c == 0x507
                                                            || (c == 0x506
                                                            || (c == 0x601
                                                            || (c == 0x603
                                                            || c == 0x700)))))))))))))))))

abbrev pub is_text : ℕ → Bool
is_text c =
    c == b'H'
    || (c == b'D'
        || (c == b'c'
            || (c == 0x604
                || (c == b'I'
                    || (c == 0x701
                        || (c == 0x702
                            || (c == 0x703 || (c == 0x802 || (c == 0x803 || c == b'E')))))))))

abbrev pub is_persona : ℕ → Bool
is_persona c = c == 0x301 || (c == 0x302 || (c == 0x303 || (c == 0x304 || c == 0x305)))

abbrev pub is_local : ℕ → Bool
is_local c = c == b'u' || (c == b'g' || c == b'l')

abbrev pub is_list : ℕ → Bool
is_list c = c == b'U' || (c == b'G' || (c == b'R' || (c == b'B' || c == b'T')))

abbrev pub is_limit : ℕ → Bool
is_limit c =
    c == 0x201
    || (c == 0x202 || (c == 0x203 || (c == 0x204 || (c == 0x205 || (c == 0x206 || c == 0x207)))))

pub flag_option-is_flag : (c : ℕ) (conf : NsjConf) → is_some (flag_option c conf) ≡ is_flag c
unfolding flag_option
flag_option-is_flag c conf = ground arith

pub text_option-is_text :
    (c : ℕ) (arg : CString) (conf : NsjConf) → is_some (text_option c arg conf) ≡ is_text c
unfolding text_option
text_option-is_text c arg conf = ground arith

pub persona_option-is_persona :
    (c : ℕ) (conf : NsjConf) → is_some (persona_option c conf) ≡ is_persona c
unfolding persona_option
persona_option-is_persona c conf = ground arith

pub local_option-is_local :
    (c : ℕ) (arg : CString) (p : Parse) → is_some (local_option c arg p) ≡ is_local c
unfolding local_option
local_option-is_local c arg p = ground arith

pub list_option-is_list :
    (c : ℕ) (arg : CString) (p : Parse) → is_some (list_option c arg p) ≡ is_list c
unfolding list_option
list_option-is_list c arg p = ground arith

pub limit_option-is_limit :
    (c : ℕ) (arg : CString) (conf : NsjConf) → is_some (limit_option c arg conf) ≡ is_limit c
unfolding limit_option
limit_option-is_limit c arg conf = ground arith
