-- ===== src/Attest/Policy.antt =====
-- internal/attest/attestation_policy.go and the data of attestation.go.
use dispatcher.Prelude.{
  ℕ, ◌/◌, ◌%◌, ◌^◌, Bool, true, false, List, [], ◌∷◌, ltb, if◌then◌else◌, ◌||◌, String,
}
use dispatcher.Attest.Bytes.{Bytes, Text, fold_eq}

pub record Claims : Type 0 where
  pub tee_type : String
  pub measurement : Text
  pub debug_enabled : Bool
  pub migration_enabled : Bool
  pub tcb : ℕ
  pub report_data : Bytes

-- byte(v >> shift).
unfoldable pub component : ℕ → ℕ → ℕ
component v shift = (v / 2 ^ shift) % 256

unfoldable pub components_gte : ℕ → ℕ → List ℕ → Bool
unfolding component
components_gte reported minimum [] = true
components_gte reported minimum (shift ∷ shifts) =
    if ltb (component reported shift) (component minimum shift)
    then false
    else components_gte reported minimum shifts

-- The shifts of the bootloader, the TEE, the SNP firmware and the microcode.
abbrev pub tcb_shifts : List ℕ
tcb_shifts = 0 ∷ 8 ∷ 48 ∷ 56 ∷ []

-- tcbComponentsGTE.
unfoldable pub tcb_components_gte : ℕ → ℕ → Bool
unfolding components_gte
tcb_components_gte reported minimum = components_gte reported minimum tcb_shifts

-- containsFold, and the loop of measurementAllowed.
unfoldable pub contains_fold : List Text → Text → Bool
unfolding fold_eq
contains_fold [] needle = false
contains_fold (h ∷ hay) needle = fold_eq h needle || contains_fold hay needle

-- measurementAllowed.
unfoldable pub measurement_allowed : Text → List Text → Bool
unfolding contains_fold
measurement_allowed measurement allowlist = contains_fold allowlist measurement
