-- ===== src/Attest.antt =====
-- internal/attest: what a confidential run checks of the machine that it was given. Certificates,
-- signatures, hashes, JSON, CBOR and base64 come from outside.
pub mod Bytes
pub mod Policy
pub mod Keys
pub mod Snp
pub mod AzureSnp
pub mod ConfidentialSpace
pub mod Nitro
pub mod Validators
pub mod Matrix
pub mod Session
pub mod Transport
