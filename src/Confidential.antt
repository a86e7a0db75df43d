-- ===== src/Confidential.antt =====
-- internal/confidential: the pins of measured images (pins.go), how a measurement becomes one
-- (capture.go), and which pins are out of date (CheckPins of inputs.go). The file of the registry,
-- JSON and the hashing of a source tree come from outside; extra artifacts are not kept.
pub mod Captured
pub mod Pinned
use dispatcher.Prelude.{
  ℕ, Bool, true, false, ◌&&◌, ◌||◌, not, List, [], ◌∷◌, Option, none, some, leb, ◌==◌, codes,
  codes_eq, length, is_empty, if◌then◌else◌,
}
use dispatcher.Types.{eq_by}
use dispatcher.Attest.Bytes.{Bytes, Text}

pub data Target : Type 0 where
  gcp aws_nitro azure_snp : Target

unfoldable pub Target-discrete : Discrete Target
Target-discrete = hlevel

pub record Pin : Type 0 where
  pub image : Text
  pub measurement : Text
  pub captured_at : Text
  pub inputs_hash : Text

abbrev pub Registry : Type 0
Registry = List (Target × Pin)

-- Registry.Get.
unfoldable pub get : Target → Registry → Option Pin
get t [] = none
get t ((u, p) ∷ pins) = if eq_by Target-discrete u t then some p else get t pins

-- Registry.Set.
unfoldable pub set : Target → Pin → Registry → Registry
set t p [] = (t, p) ∷ []
set t p ((u, q) ∷ pins) =
    let rest = set t p pins in if eq_by Target-discrete u t then (t, p) ∷ pins else (u, q) ∷ rest

unfoldable pub is_hex_digit : ℕ → Bool
is_hex_digit c = leb b'0' c && leb c b'9' || leb b'a' c && leb c b'f'

unfoldable pub all_hex : Text → Bool
unfolding is_hex_digit
all_hex [] = true
all_hex (c ∷ cs) = is_hex_digit c && all_hex cs

-- isHexLen.
unfoldable pub is_hex_len : Text → ℕ → Bool
unfolding all_hex
is_hex_len s n = length s == n && all_hex s

-- strings.CutPrefix.
unfoldable pub cut_prefix : Text → Text → Option Text
cut_prefix [] s = some s
cut_prefix (p ∷ ps) [] = none
cut_prefix (p ∷ ps) (c ∷ cs) = let rest = cut_prefix ps cs in if c == p then rest else none

abbrev pub digest_prefix : Text
digest_prefix = codes "sha256:"

-- ValidateImageDigest.
unfoldable pub is_image_digest : Text → Bool
unfolding cut_prefix is_hex_len
is_image_digest digest = elim (cut_prefix digest_prefix digest) [
  | none ↦ false
  | some hex_part ↦ is_hex_len hex_part 64
]

-- The text after the `@` of the first `@sha256:`.
unfoldable pub digest_of : Text → Option Text
unfolding cut_prefix
digest_of [] = none
digest_of (c ∷ cs) =
    let later = digest_of cs in
    elim (cut_prefix (b'@' ∷ digest_prefix) (c ∷ cs)) [ none ↦ later | some rest ↦ some cs ]

-- CaptureGCP.
unfoldable pub capture_gcp : Text → Option Pin
unfolding digest_of is_image_digest
capture_gcp image_ref = elim (digest_of image_ref) [
  | none ↦ none
  | some digest ↦
      if is_image_digest digest
      then some
          (record { image = image_ref; measurement = digest; captured_at = []; inputs_hash = [] })
      else none
]

-- CaptureNitroPCR0.
unfoldable pub capture_nitro_pcr0 : (Bytes → Option Text) → Bytes → Option Text
unfolding is_hex_len
capture_nitro_pcr0 pcr0_of describe_eif = elim (pcr0_of describe_eif) [
  | none ↦ none
  | some pcr0 ↦ if is_hex_len pcr0 96 then some pcr0 else none
]

-- InputsHash, over the hash of the inputs of a target.
unfoldable pub inputs_hash_of : (Target → Option Text) → Target → Option Text
inputs_hash_of hash_inputs gcp = some []
inputs_hash_of hash_inputs aws_nitro = hash_inputs aws_nitro
inputs_hash_of hash_inputs azure_snp = hash_inputs azure_snp

pub record StalePin : Type 0 where
  pub target : Target
  pub recorded : Text
  pub current : Text

unfoldable pub with_stale : Target → Pin → Text → List StalePin → List StalePin
with_stale t pin cur stale =
    if is_empty cur || codes_eq cur pin.inputs_hash
    then stale
    else record { target = t; recorded = pin.inputs_hash; current = cur } ∷ stale

-- The loop of CheckPins over the targets.
unfoldable pub check_from : (Target → Option Text) → Registry → List Target → Option (List StalePin)
unfolding get inputs_hash_of with_stale
check_from hash_inputs reg [] = some []
check_from hash_inputs reg (t ∷ ts) =
    let rest = check_from hash_inputs reg ts in
    elim (get t reg) [
      | none ↦ rest
      | some pin ↦ if is_empty pin.inputs_hash then rest else elim (inputs_hash_of hash_inputs t) [
        | none ↦ none
        | some cur ↦ elim rest [ none ↦ none | some stale ↦ some (with_stale t pin cur stale) ]
      ]
    ]

-- CheckPins: the targets in the order of their names.
unfoldable pub check_pins : (Target → Option Text) → Registry → Option (List StalePin)
unfolding check_from
check_pins hash_inputs reg = check_from hash_inputs reg (aws_nitro ∷ azure_snp ∷ gcp ∷ [])
