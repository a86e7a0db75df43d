-- ===== src/Attest/Validators.antt =====
-- internal/attest/atls_validators.go: the verifiers as validators of an attested TLS session, whose
-- commitment takes the place of the channel key. A time is taken once for each check of it.
pub mod Accepted
use dispatcher.Prelude.{
  ℕ, Bool, true, false, List, [], ◌∷◌, Option, none, some, ltb, if◌then◌else◌, codes, codes_eq,
  Result, ok, err,
}
use dispatcher.Types.{Time}
use dispatcher.Attest.Bytes.{Bytes, Text, hex}
use dispatcher.Attest.Keys.{KeySet}
use dispatcher.Attest.Snp
use dispatcher.Attest.AzureSnp
use dispatcher.Attest.AzureSnp.{Pins}
use dispatcher.Attest.ConfidentialSpace
use dispatcher.Attest.Nitro

pub data Verdict : Type 0 where
  verified : Verdict
  cs_refused : ConfidentialSpace.CsError → Verdict
  nitro_refused : Nitro.NitroError → Verdict
  snp_refused : Snp.SnpError → Verdict

-- AttestationResult; no validator sets its TCB or its channel key.
pub record AttestationResult : Type 0 where
  pub is_verified : Bool
  pub tee_type : Text
  pub measurement : Text
  pub nonce : Text
  pub verdict : Verdict

refused : Bytes → Verdict → AttestationResult
unfolding hex
refused nonce v = record {
  is_verified = false;
  tee_type = [];
  measurement = [];
  nonce = hex nonce;
  verdict = v;
}

accepted : Bytes → Text → Text → AttestationResult
unfolding hex
accepted nonce tee_type measurement = record {
  is_verified = true;
  tee_type = tee_type;
  measurement = measurement;
  nonce = hex nonce;
  verdict = verified;
}

-- A verify core: the evidence, the commitment of the session and the nonce. `none` is an error.
abbrev pub Verify : Type 0
Verify = Bytes → Bytes → Bytes → Option AttestationResult

-- AttestValidator.Validate: the result that it records, and `none` where it refuses.
unfoldable pub validate : Verify → Bytes → Bytes → Bytes → Option AttestationResult
validate verify evidence bind_data nonce = elim (verify evidence bind_data nonce) [
  | none ↦ none
  | some res ↦ if res.is_verified then some res else none
]

-- CSValidator.
unfoldable pub cs_verify : ConfidentialSpace.Jose → Time → KeySet → List Text → Text → ℕ → Verify
unfolding ConfidentialSpace.verify_cs_token refused accepted
cs_verify jose now keys image_digests expected_type min_tcb evidence bind_data nonce =
    if ltb 0 min_tcb
    then some (refused nonce (cs_refused ConfidentialSpace.min_tcb_unenforceable))
    else elim (ConfidentialSpace.verify_cs_token jose now evidence keys (record {
      nonce = nonce;
      image_digests = image_digests;
      channel_key = bind_data;
      expected_type = expected_type;
      expected_audience = ConfidentialSpace.cs_token_audience;
    })) [
      | err e ↦ some (refused nonce (cs_refused e))
      | ok (digest, tee_type) ↦ some (accepted nonce tee_type digest)
    ]

-- NitroValidator.
unfoldable pub nitro_verify :
    (cose : Nitro.Cose) → (Bytes → Option Bytes) → cose.CertPool → Pins → Verify
unfolding Nitro.verify_nitro_doc refused accepted
nitro_verify cose base64_decode roots pins evidence bind_data nonce =
    elim (base64_decode evidence) [
      | none ↦ some (refused nonce (nitro_refused Nitro.evidence_undecoded))
      | some b ↦ elim (Nitro.verify_nitro_doc cose b roots nonce pins) [
        | err e ↦ some (refused nonce (nitro_refused e))
        | ok (measurement, bound) ↦
            if codes_eq bound bind_data
            then some (accepted nonce (codes "nitro") measurement)
            else some (refused nonce (nitro_refused Nitro.unbound))
      ]
    ]

-- parseAzureSNPEvidence: raw JSON, or base64 of it.
unfoldable pub parse_evidence :
    (Bytes → Option AzureSnp.Evidence) → (Bytes → Option Bytes) → Bytes → Option AzureSnp.Evidence
parse_evidence unmarshal base64_decode evidence = elim (unmarshal evidence) [
  | some ev ↦ some ev
  | none ↦ elim (base64_decode evidence) [ none ↦ none | some raw ↦ unmarshal raw ]
]

module _ (lib : Snp.X509) (tpm : AzureSnp.Tpm) (unmarshal : Bytes → Option AzureSnp.Evidence)
    (base64_decode : Bytes → Option Bytes) where
  -- AzureSNPValidator: the session's commitment, not the key that came with the evidence.
  unfoldable pub azure_snp_verify : (ℕ → Time) → List lib.Certificate → Pins → Text → ℕ → Verify
  unfolding AzureSnp.verify_azure_snp parse_evidence refused accepted
  azure_snp_verify clock roots pins launch_measurement min_tcb evidence bind_data nonce =
      elim (parse_evidence unmarshal base64_decode evidence) [
        | none ↦ some (refused nonce (snp_refused Snp.evidence_unparsed))
        | some ev ↦
            elim (AzureSnp.verify_azure_snp lib tpm clock (record ev { channel_key = bind_data })
              roots nonce pins launch_measurement min_tcb) [
                | err e ↦ some (refused nonce (snp_refused e))
                | ok (measurement, key) ↦ some (accepted nonce (codes "sev-snp") measurement)
              ]
      ]

  -- azureSNPCapture.Validate: PCR 11 and the launch measurement, where it does not refuse.
  unfoldable pub azure_snp_capture :
      (ℕ → Time) → List lib.Certificate → Bytes → Bytes → Bytes → Option (Text × Text)
  unfolding AzureSnp.capture_pcr11 parse_evidence
  azure_snp_capture clock roots evidence bind_data nonce =
      elim (parse_evidence unmarshal base64_decode evidence) [
        | none ↦ none
        | some ev ↦
            elim (AzureSnp.capture_pcr11 lib tpm clock (record ev { channel_key = bind_data }) roots
              nonce) [ err e ↦ none | ok (pcr11, measurement) ↦ some (pcr11, measurement) ]
      ]
