-- ===== src/Attest/Matrix/Grounded.antt =====
-- The matrix against the validators: what a session fails, its validator refuses.
use dispatcher.Attest.Bytes.{Bytes}
use dispatcher.Attest.Snp
use dispatcher.Attest.AzureSnp
use dispatcher.Attest.AzureSnp.{Pins, lookup}
use dispatcher.Attest.ConfidentialSpace
use dispatcher.Attest.ConfidentialSpace.{CsToken}
use dispatcher.Attest.Nitro
use dispatcher.Attest.Matrix.{Enforcement, enforced, fail_closed, not_enforced, not_applicable}
use dispatcher.Attest.Matrix.Fails.{Fails}

-- The backend refuses whatever fails the control.
abbrev pub Guards : Enforcement → Type 0
Guards enforced = Unit
Guards fail_closed = Unit
Guards not_enforced = ⊥
Guards not_applicable = ⊥
