-- ===== src/Attest/AzureSnp.antt =====
-- internal/attest/azure_snp.go: the evidence of an Azure confidential VM, checked in full. The TPM
-- quote and the JSON of the runtime data are parsed outside.
pub mod Chained
pub mod Sound
use dispatcher.Prelude.{
  ℕ, ◌%◌, ◌^◌, Bool, true, false, not, ◌||◌, ◌&&◌, List, [], ◌∷◌, ◌++◌, Option, none, some, ltb,
  ◌==◌, if◌then◌else◌, take, length, is_empty, any, codes, codes_eq, Result, ok, err, ◌>>=◌, ◌>>◌,
  check, require,
}
use dispatcher.Types.{Time}
use dispatcher.Attest.Bytes.{Bytes, Text, hex, fold_eq}
use dispatcher.Attest.Keys.{RsaKey, Jwk, rsa_public_key_from_jwk}
use dispatcher.Attest.Policy.{tcb_components_gte}
use dispatcher.Attest.Snp

abbrev pub Pcrs : Type 0
Pcrs = List (ℕ × Bytes)

abbrev pub Pins : Type 0
Pins = List (ℕ × Text)

-- agent.AzureSNPEvidence.
pub record Evidence : Type 0 where
  pub snp_report : Bytes
  pub vcek : Bytes
  pub ask : Bytes
  pub runtime_data : Bytes
  pub quote : Bytes
  pub quote_sig : Bytes
  pub pcrs : Pcrs
  pub channel_key : Bytes

-- What go-tpm reads from a quote: whether its type is TagAttestQuote, its extra data, and whether the
-- selection is over AlgSHA256, which PCRs it selects, and their digest.
pub record QuoteInfo : Type 0 where
  pub over_sha256 : Bool
  pub selected : List ℕ
  pub pcr_digest : Bytes

pub record AttestationData : Type 0 where
  pub tagged_quote : Bool
  pub extra_data : Bytes
  pub quote_info : Option QuoteInfo

-- The packages that read a quote and the runtime data, and the CRL endpoint of AMD.
pub record Tpm : Type 0 where
  pub decode_attestation_data : Bytes → Option AttestationData
  pub parse_runtime_data : Bytes → Option (List Jwk)
  pub raw_url_decode : Text → Option Bytes
  -- VerifyPKCS1v15 with SHA-256.
  pub rsa_verify : RsaKey → Bytes → Bytes → Bool
  pub fetch_crl : Text → Option Bytes

unfoldable pub lookup {ℓ} : {V : Type ℓ} → ℕ → List (ℕ × V) → Option V
lookup i [] = none
lookup i ((j, v) ∷ m) = if j == i then some v else lookup i m

unfoldable pub member : ℕ → List ℕ → Bool
member i [] = false
member i (j ∷ js) = j == i || member i js

abbrev pub first {ℓ} : {A : Type ℓ} → List A → Option A
first [] = none
first (x ∷ xs) = some x

-- A map gives no bytes for a missing key.
abbrev pub or_nil : Option Bytes → Bytes
or_nil none = []
or_nil (some b) = b

abbrev ak_kid : Text
ak_kid = codes "HCLAkPub"

-- The first key of the runtime data with the name of the attestation key.
unfoldable pub find_ak : List Jwk → Option Jwk
find_ak [] = none
find_ak (k ∷ ks) = if codes_eq k.kid ak_kid then some k else find_ak ks

-- checkQuotedPCRs: the values of the selected PCRs, one after the other.
unfoldable pub selected_values : List ℕ → Pcrs → Result Snp.SnpError Bytes
unfolding lookup
selected_values [] pcrs = ok []
selected_values (i ∷ is) pcrs = do
  v ← require (lookup (i % 2 ^ 32) pcrs) Snp.pcr_omitted
  vs ← selected_values is pcrs
  ok (v ++ vs)

-- The loop of verifyAzureSNP over the pinned PCRs.
unfoldable pub check_pins : Pins → List ℕ → Pcrs → Result Snp.SnpError (Unit {0})
unfolding lookup member hex
check_pins [] quoted pcrs = ok tt
check_pins ((i, want) ∷ pins) quoted pcrs = do
  check (member i quoted) Snp.pcr_not_quoted
  got ← require (lookup (i % 2 ^ 32) pcrs) Snp.pcr_missing
  check (codes_eq (hex got) want) Snp.pcr_mismatch
  check_pins pins quoted pcrs

-- What verifyAzureSNPEvidence returns.
pub record Verified : Type 0 where
  pub pcrs : Pcrs
  pub quoted : List ℕ
  pub channel_key : Bytes
  pub launch_measurement : Text

module _ (lib : Snp.X509) (tpm : Tpm) where
  open lib use {
    Certificate, RevocationList, parse_certificate, parse_revocation_list, serial_number,
    crl_distribution_points, crl_signature_from, next_update, revoked_serials, sha256,
  }
  open tpm use {decode_attestation_data, parse_runtime_data, raw_url_decode, rsa_verify, fetch_crl}

  -- NextUpdate is set and has not passed.
  unfoldable pub is_current : Time → RevocationList → Bool
  is_current now crl = elim (next_update crl) [ none ↦ false | some t ↦ not (ltb t now) ]

  -- azureSNPCheckRevocation up to the list that it reads.
  unfoldable pub current_crl : Time → Certificate → Certificate → Result Snp.SnpError RevocationList
  unfolding is_current
  current_crl now ask ark = do
    url ← require (first (crl_distribution_points ask)) Snp.no_distribution_point
    body ← require (fetch_crl url) Snp.crl_unreachable
    crl ← require (parse_revocation_list body) Snp.crl_unparsed
    check (crl_signature_from crl ark) Snp.crl_not_from_ark
    check (is_current now crl) Snp.crl_stale
    ok crl

  -- Its loop over the revoked serial numbers.
  unfoldable pub not_revoked : ℕ → ℕ → List ℕ → Result Snp.SnpError (Unit {0})
  not_revoked vcek ask [] = ok tt
  not_revoked vcek ask (e ∷ es) = do
    check (not (e == vcek)) Snp.vcek_revoked
    check (not (e == ask)) Snp.ask_revoked
    not_revoked vcek ask es

  -- azureSNPCheckRevocation.
  unfoldable pub check_revocation :
      Time → Certificate → Certificate → Certificate → Result Snp.SnpError (Unit {0})
  unfolding current_crl not_revoked
  check_revocation now vcek ask ark = do
    crl ← current_crl now ask ark
    not_revoked (serial_number vcek) (serial_number ask) (revoked_serials crl)

  -- hclAkPub.
  unfoldable pub hcl_ak_pub : Bytes → Result Snp.SnpError RsaKey
  unfolding find_ak rsa_public_key_from_jwk
  hcl_ak_pub runtime_data = do
    keys ← require (parse_runtime_data runtime_data) Snp.runtime_data_unparsed
    k ← require (find_ak keys) Snp.no_ak
    nb ← require (raw_url_decode k.n) Snp.ak_modulus
    eb ← require (raw_url_decode k.e) Snp.ak_exponent
    require (rsa_public_key_from_jwk nb eb) Snp.ak_degenerate

  -- checkQuotedPCRs.
  unfoldable pub check_quoted_pcrs : QuoteInfo → Pcrs → Result Snp.SnpError (Unit {0})
  unfolding selected_values
  check_quoted_pcrs qi pcrs = do
    check qi.over_sha256 Snp.not_sha256_bank
    values ← selected_values qi.selected pcrs
    check (codes_eq (sha256 values) qi.pcr_digest) Snp.digest_mismatch

  -- agent.MAABindingNonce.
  unfoldable pub binding_nonce : Bytes → Bytes → Bytes
  binding_nonce nonce channel_key = sha256 (nonce ++ channel_key)

  -- The genuine hardware: steps 1 and 1b of verifyAzureSNPEvidence.
  unfoldable pub check_report :
      (ℕ → Time) → Evidence → List Certificate → ℕ → Result Snp.SnpError Snp.SnpReport
  unfolding Snp.parse_snp_report Snp.verify_snp_chain Snp.verify_snp_signature check_revocation
      tcb_components_gte Snp.debug_enabled Snp.migration_enabled
  check_report clock ev roots min_tcb = do
    rep ← require (Snp.parse_snp_report ev.snp_report) Snp.report_too_short
    vcek ← require (parse_certificate ev.vcek) Snp.vcek_unparsed
    ask ← require (parse_certificate ev.ask) Snp.ask_unparsed
    ark ← Snp.verify_snp_chain lib (clock 0) vcek ask roots
    Snp.verify_snp_signature lib rep vcek
    check_revocation (clock 1) vcek ask ark
    check (not (Snp.debug_enabled rep.policy)) Snp.debug_on
    check (not (Snp.migration_enabled rep.policy)) Snp.migration_on
    check (rep.vmpl == 0) Snp.vmpl_nonzero
    check (tcb_components_gte rep.reported_tcb min_tcb) Snp.tcb_below_minimum
    ok rep

  -- The signed quote of this run: steps 2 to 6.
  unfoldable pub check_quote : Evidence → Snp.SnpReport → Bytes → Result Snp.SnpError (List ℕ)
  unfolding hcl_ak_pub binding_nonce check_quoted_pcrs
  check_quote ev rep nonce = do
    check (codes_eq (take 32 rep.report_data) (sha256 ev.runtime_data)) Snp.runtime_data_unbound
    ak ← hcl_ak_pub ev.runtime_data
    check (rsa_verify ak (sha256 ev.quote) ev.quote_sig) Snp.quote_signature
    ad ← require (decode_attestation_data ev.quote) Snp.quote_unparsed
    check ad.tagged_quote Snp.not_a_quote
    qi ← require ad.quote_info Snp.not_a_quote
    check (length nonce == 32) Snp.nonce_length
    check (codes_eq ad.extra_data (binding_nonce nonce ev.channel_key)) Snp.binding_mismatch
    check_quoted_pcrs qi ev.pcrs
    ok qi.selected

  -- verifyAzureSNPEvidence.
  unfoldable pub verify_evidence :
      (ℕ → Time) → Evidence → List Certificate → Bytes → ℕ → Result Snp.SnpError Verified
  unfolding check_report check_quote hex
  verify_evidence clock ev roots nonce min_tcb = do
    rep ← check_report clock ev roots min_tcb
    quoted ← check_quote ev rep nonce
    ok (record {
      pcrs = ev.pcrs;
      quoted = quoted;
      channel_key = ev.channel_key;
      launch_measurement = hex rep.measurement;
    })

  -- verifyAzureSNP, under AzureSNPPolicy: the measurement and the channel key.
  unfoldable pub verify_azure_snp :
      (ℕ → Time)
      → Evidence
      → List Certificate
      → Bytes
      → Pins
      → Text
      → ℕ
      → Result Snp.SnpError (Text × Bytes)
  unfolding verify_evidence check_pins fold_eq hex lookup
  verify_azure_snp clock ev roots nonce pins measurement min_tcb = do
    v ← verify_evidence clock ev roots nonce min_tcb
    check (not (is_empty measurement)) Snp.no_measurement_pin
    check (fold_eq v.launch_measurement measurement) Snp.measurement_mismatch
    check (not (is_empty pins)) Snp.no_pcr_pins
    check_pins pins v.quoted v.pcrs
    ok (hex (or_nil (lookup 11 v.pcrs)), v.channel_key)

  -- captureAzureSNPPCR11: the values to pin.
  unfoldable pub capture_pcr11 :
      (ℕ → Time) → Evidence → List Certificate → Bytes → Result Snp.SnpError (Text × Text)
  unfolding verify_evidence member lookup hex
  capture_pcr11 clock ev roots nonce = do
    v ← verify_evidence clock ev roots nonce 0
    check (member 11 v.quoted) Snp.pcr11_not_quoted
    value ← require (lookup 11 v.pcrs) Snp.pcr11_missing
    ok (hex value, v.launch_measurement)
