-- ===== src/Attest/Bytes.antt =====
-- Bytes and texts as lists of numbers, with what the verifiers use of packages encoding/binary,
-- encoding/hex and bytes.
use dispatcher.Prelude.{
  ℕ, ◌+◌, ◌*◌, ◌/◌, ◌%◌, Bool, List, [], ◌∷◌, ltb, if◌then◌else◌, codes_eq, to_lower,
}

abbrev pub Bytes : Type 0
Bytes = List ℕ

abbrev pub Text : Type 0
Text = List ℕ

-- binary.LittleEndian.
unfoldable pub little_endian : Bytes → ℕ
little_endian [] = 0
little_endian (b ∷ bs) = b + 256 * little_endian bs

-- big.Int.SetBytes.
unfoldable pub set_bytes : ℕ → Bytes → ℕ
set_bytes n [] = n
set_bytes n (b ∷ bs) = set_bytes (n * 256 + b) bs

hex_digit : ℕ → ℕ
hex_digit d = if ltb d 10 then d + 48 else d + 87

-- hex.EncodeToString.
unfoldable pub hex : Bytes → Text
unfolding hex_digit
hex [] = []
hex (b ∷ bs) = hex_digit (b / 16) ∷ hex_digit (b % 16) ∷ hex bs

-- strings.EqualFold, on ASCII.
unfoldable pub fold_eq : Text → Text → Bool
unfolding to_lower
fold_eq s t = codes_eq (to_lower s) (to_lower t)
