-- ===== src/Attest/Matrix.antt =====
-- internal/attest/matrix.go: which controls each backend enforces. The texts of the anchors and the
-- notes, and the table in markdown, are left out.
mod PolicyBits
pub mod Fails
pub mod Grounded
use dispatcher.Prelude.{List, [], ◌∷◌, String}

pub data Enforcement : Type 0 where
  enforced fail_closed not_enforced not_applicable : Enforcement

pub data Control : Type 0 where
  genuine_tee measurement nonce channel_binding debug_off : Control
  migration_off min_tcb revocation measured_agent : Control

pub data Backend : Type 0 where
  gcp_confidential_space azure_snp aws_nitro : Backend

abbrev pub control_order : List Control
control_order =
    genuine_tee ∷ measurement ∷ nonce ∷ channel_binding ∷ debug_off ∷ migration_off ∷ min_tcb
    ∷ revocation ∷ measured_agent ∷ []

-- ConfidentialMatrix.
unfoldable pub controls : Backend → Control → Enforcement
controls gcp_confidential_space migration_off = not_applicable
controls gcp_confidential_space min_tcb = fail_closed
controls gcp_confidential_space revocation = not_applicable
controls gcp_confidential_space _ = enforced
controls azure_snp _ = enforced
controls aws_nitro debug_off = not_applicable
controls aws_nitro migration_off = not_applicable
controls aws_nitro min_tcb = not_applicable
controls aws_nitro revocation = not_applicable
controls aws_nitro _ = enforced

-- Enforcement.cell.
unfoldable pub cell : Enforcement → String
cell enforced = "✓"
cell not_enforced = "✗"
cell fail_closed = "fail-closed"
cell not_applicable = "n/a"
