-- ===== src/Attest/Snp.antt =====
-- internal/attest/snp.go: the report of AMD SEV-SNP, its signature and its chain of certificates.
-- Package x509 and the signatures and hashes are the parameter `X509`.
use dispatcher.Prelude.{
  ℕ, ◌/◌, ◌%◌, ◌^◌, Bool, not, ◌||◌, List, [], ◌∷◌, Option, none, some, ltb, ◌==◌, if◌then◌else◌,
  take, drop, length, is_empty, Result, ◌>>=◌, ◌>>◌, check, require,
}
use mathlib.Core.List.{reverse}
use dispatcher.Types.{Time}
use dispatcher.Attest.Bytes.{Bytes, Text, little_endian, set_bytes, hex}
use dispatcher.Attest.Policy.{Claims}

-- Parsed certificates and revocation lists, and the signatures that they carry.
pub record X509 : Type 1 where
  pub Certificate : Type 0
  pub RevocationList : Type 0
  pub PublicKey : Type 0
  pub parse_certificate : Bytes → Option Certificate
  pub parse_revocation_list : Bytes → Option RevocationList
  pub not_before : Certificate → Time
  pub not_after : Certificate → Time
  pub serial_number : Certificate → ℕ
  pub crl_distribution_points : Certificate → List Text
  -- The key, if it is an ECDSA key on P-384.
  pub p384_key : Certificate → Option PublicKey
  pub check_signature_from : Certificate → Certificate → Bool
  pub crl_signature_from : RevocationList → Certificate → Bool
  -- NextUpdate, unless it is zero.
  pub next_update : RevocationList → Option Time
  pub revoked_serials : RevocationList → List ℕ
  pub ecdsa_verify : PublicKey → Bytes → ℕ → ℕ → Bool
  pub sha256 : Bytes → Bytes
  pub sha384 : Bytes → Bytes

pub record SnpReport : Type 0 where
  pub signed : Bytes
  pub sig_algo : ℕ
  pub policy : ℕ
  pub vmpl : ℕ
  pub reported_tcb : ℕ
  pub measurement : Bytes
  pub report_data : Bytes
  pub sig_r : ℕ
  pub sig_s : ℕ

pub data SnpError : Type 0 where
  report_too_short vcek_unparsed ask_unparsed : SnpError
  no_roots outside_validity vcek_not_from_ask ask_not_from_root : SnpError
  unsupported_algorithm not_p384 signature_invalid : SnpError
  no_distribution_point crl_unreachable crl_unparsed crl_not_from_ark crl_stale : SnpError
  vcek_revoked ask_revoked : SnpError
  debug_on migration_on vmpl_nonzero tcb_below_minimum : SnpError
  runtime_data_unbound runtime_data_unparsed ak_modulus ak_exponent ak_degenerate no_ak : SnpError
  quote_signature quote_unparsed not_a_quote nonce_length binding_mismatch : SnpError
  not_sha256_bank pcr_omitted digest_mismatch : SnpError
  no_measurement_pin measurement_mismatch no_pcr_pins : SnpError
  pcr_not_quoted pcr_missing pcr_mismatch : SnpError
  pcr11_not_quoted pcr11_missing evidence_unparsed : SnpError

abbrev pub report_len : ℕ
report_len = 0x4A0

abbrev pub signed_len : ℕ
signed_len = 0x2A0

-- leUint32 and leUint64 at an offset.
unfoldable pub le_uint32 : ℕ → Bytes → ℕ
unfolding little_endian
le_uint32 off b = little_endian (take 4 (drop off b))

unfoldable pub le_uint64 : ℕ → Bytes → ℕ
unfolding little_endian
le_uint64 off b = little_endian (take 8 (drop off b))

-- leToBigInt.
le_to_big_int : Bytes → ℕ
unfolding set_bytes
le_to_big_int le = set_bytes 0 (reverse le)

-- parseSNPReport.
unfoldable pub parse_snp_report : Bytes → Option SnpReport
unfolding le_uint32 le_uint64 le_to_big_int
parse_snp_report b =
    if ltb (length b) report_len
    then none
    else some (record {
      signed = take signed_len b;
      sig_algo = le_uint32 0x34 b;
      policy = le_uint64 0x08 b;
      vmpl = le_uint32 0x30 b;
      reported_tcb = le_uint64 0x180 b;
      measurement = take 48 (drop 0x90 b);
      report_data = take 64 (drop 0x50 b);
      sig_r = le_to_big_int (take 72 (drop signed_len b));
      sig_s = le_to_big_int (take 72 (drop 0x2E8 b));
    })

-- policy & snpPolicyDebug != 0, the bit 1 << 19.
unfoldable pub debug_enabled : ℕ → Bool
debug_enabled policy = policy / 2 ^ 19 % 2 == 1

-- policy & snpPolicyMigrateMA != 0, the bit 1 << 18.
unfoldable pub migration_enabled : ℕ → Bool
migration_enabled policy = policy / 2 ^ 18 % 2 == 1

-- snpReport.claims.
unfoldable pub claims : SnpReport → Claims
unfolding debug_enabled migration_enabled hex
claims r = record {
  tee_type = "sev-snp";
  measurement = hex r.measurement;
  debug_enabled = debug_enabled r.policy;
  migration_enabled = migration_enabled r.policy;
  tcb = r.reported_tcb;
  report_data = r.report_data;
}

module _ (lib : X509) where
  open lib use {
    Certificate, not_before, not_after, p384_key, check_signature_from, ecdsa_verify, sha384,
  }

  -- verifySNPSignature.
  unfoldable pub verify_snp_signature : SnpReport → Certificate → Result SnpError (Unit {0})
  verify_snp_signature r vcek = do
    check (r.sig_algo == 1) unsupported_algorithm
    pub_key ← require (p384_key vcek) not_p384
    check (ecdsa_verify pub_key (sha384 r.signed) r.sig_r r.sig_s) signature_invalid

  unfoldable pub within_validity : Time → Certificate → Bool
  within_validity now c = not (ltb now (not_before c) || ltb (not_after c) now)

  -- The first root that signed the certificate.
  unfoldable pub issuer : Certificate → List Certificate → Option Certificate
  issuer ask [] = none
  issuer ask (ark ∷ roots) = if check_signature_from ask ark then some ark else issuer ask roots

  -- verifySNPChain; its certificates have been parsed, so they are not nil.
  unfoldable pub verify_snp_chain :
      Time → Certificate → Certificate → List Certificate → Result SnpError Certificate
  unfolding within_validity issuer
  verify_snp_chain now vcek ask roots = do
    check (not (is_empty roots)) no_roots
    check (within_validity now vcek) outside_validity
    check (within_validity now ask) outside_validity
    check (check_signature_from vcek ask) vcek_not_from_ask
    require (issuer ask roots) ask_not_from_root
