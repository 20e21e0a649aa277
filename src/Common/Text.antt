-- ===== src/Common/Text.antt =====
-- C strings as lists of bytes, and what the source uses of `snprintf`.
use Prim.Native.Char.{code}
use Prim.Native.String.{String}
use nsjail.Common.{
  ℕ, zero, suc, ◌+◌, ◌-◌, ◌/◌, ◌%◌, List, [], ◌∷◌, ◌++◌, ltb, take, Bool, true, false, ◌==◌,
  if◌then◌else◌,
}
use nsjail.Common.Int.{ℤ, pos, negsuc}

-- The bytes of an ASCII text.
abbrev pub bytes : String → List ℕ
bytes String.[] = []
bytes (String.◌∷◌ c s) = code c ∷ bytes s

-- The digits of `n`, given more fuel than digits.
dec_digits : ℕ → ℕ → List ℕ
dec_digits zero n = []
dec_digits (suc fuel) n =
    let front = dec_digits fuel (n / 10) in
    if ltb n 10 then (b'0' + n) ∷ [] else front ++ (b'0' + n % 10) ∷ []

-- `%u`, `%lu`, `%zu`
unfoldable pub print_ℕ : ℕ → List ℕ
unfolding dec_digits
print_ℕ n = dec_digits (n + 1) n

-- `%d`
unfoldable pub print_ℤ : ℤ → List ℕ
unfolding print_ℕ
print_ℤ (pos n) = print_ℕ n
print_ℤ (negsuc n) = b'-' ∷ print_ℕ (n + 1)

-- `strcmp(a, b) == 0`
abbrev pub eq_bytes : List ℕ → List ℕ → Bool
eq_bytes [] [] = true
eq_bytes (a ∷ as') (b ∷ bs) = if a == b then eq_bytes as' bs else false
eq_bytes _ _ = false

-- What `snprintf` leaves in a buffer of `size` bytes, before the final zero.
abbrev pub snprintf : ℕ → List ℕ → List ℕ
snprintf size text = take (size - 1) text

abbrev pub path_max : ℕ
path_max = 4096

-- The texts one after the other.
unfoldable pub concat : List (List ℕ) → List ℕ
concat [] = []
concat (text ∷ texts) = text ++ concat texts
