-- ===== src/Seccomp/Print.antt =====
-- seccomp/bpf-helper.c: `seccomp_bpf_print`, the text that it prints.
use nsjail.Common.{List, [], ◌∷◌}
use nsjail.Common.Text.{bytes, concat, print_ℕ}
use nsjail.Os.{CString}
use nsjail.Seccomp.Insn.{SockFilter}

unfoldable pub seccomp_bpf_print : List SockFilter → CString
unfolding concat
seccomp_bpf_print [] = []
seccomp_bpf_print (f ∷ fs) = concat (
    bytes "{ code="
    ∷ print_ℕ f.code
    ∷ bytes ",jt="
    ∷ print_ℕ f.jt
    ∷ bytes ",jf="
    ∷ print_ℕ f.jf
    ∷ bytes ",k="
    ∷ print_ℕ f.k
    ∷ bytes " },\n"
    ∷ seccomp_bpf_print fs
    ∷ [])
