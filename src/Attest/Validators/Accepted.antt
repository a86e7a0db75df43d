-- ===== src/Attest/Validators/Accepted.antt =====
-- What a session that a validator accepts is known to be.
use dispatcher.Prelude.{
  ℕ, List, Option, some, ltb, ◌≡◌, inl, inr, arith, codes_eq, codes_eq→eq, sym, ◌∙◌, Option-cases,
  Bool-cases, Result-cases,
}
use dispatcher.Types.{Time}
use dispatcher.Attest.Bytes.{Bytes, Text}
use dispatcher.Attest.Keys.{KeySet}
use dispatcher.Attest.Snp
use dispatcher.Attest.AzureSnp
use dispatcher.Attest.AzureSnp.{Pins, lookup}
use dispatcher.Attest.AzureSnp.Sound.{verify_azure_snp-IsTrusted, IsTrusted}
use dispatcher.Attest.ConfidentialSpace
use dispatcher.Attest.ConfidentialSpace.{CsToken, CsPolicy}
use dispatcher.Attest.ConfidentialSpace.Sound.{verify_cs_token-IsForRun, Carries, IsForRun}
use dispatcher.Attest.Nitro
use dispatcher.Attest.Nitro.{NitroDoc}
use dispatcher.Attest.Nitro.Sound.{verify_nitro_doc-IsPinned, IsPinned}
use dispatcher.Attest.Validators.{
  AttestationResult, validate, cs_verify, nitro_verify, parse_evidence, azure_snp_verify,
}

unfoldable pub cs_policy : Bytes → Bytes → List Text → Text → CsPolicy
cs_policy bind_data nonce digests expected_type = record {
  nonce = nonce;
  image_digests = digests;
  channel_key = bind_data;
  expected_type = expected_type;
  expected_audience = ConfidentialSpace.cs_token_audience;
}

abbrev pub CsAccepted :
    ConfidentialSpace.Jose → Time → KeySet → List Text → Text → ℕ → Bytes → Bytes → Bytes → Type 0
CsAccepted jose now keys digests expected_type min_tcb evidence bind_data nonce =
    (min_tcb ≡ 0)
    × ((t : CsToken) × Carries jose keys evidence t
        × IsForRun jose now (cs_policy bind_data nonce digests expected_type) t)

-- With the Confidential Space validator no TCB was demanded, a pinned key signed the token, and its
-- claims are those of this session and of an allowed image.
pub cs_accepted :
    (jose : ConfidentialSpace.Jose) (now : Time) (keys : KeySet) (digests : List Text)
    (expected_type : Text) (min_tcb : ℕ) (evidence bind_data nonce : Bytes)
    {res : AttestationResult}
    → validate (cs_verify jose now keys digests expected_type min_tcb) evidence bind_data nonce
      ≡ some res
    → CsAccepted jose now keys digests expected_type min_tcb evidence bind_data nonce
unfolding validate cs_verify cs_policy
cs_accepted jose now keys digests expected_type min_tcb evidence bind_data nonce h =
    let p = cs_policy bind_data nonce digests expected_type in
    elim (Bool-cases (ltb 0 min_tcb)) [
      | inl y ↦ absurd (ground (arith, y, h))
      | inr z ↦ elim (Result-cases (ConfidentialSpace.verify_cs_token jose now evidence keys p)) [
        | inr (e, f) ↦ absurd (ground (arith, z, f, h))
        | inl ((digest, tee_type), f) ↦
            let s = verify_cs_token-IsForRun jose now evidence keys p f in
            (ground (arith, z), (s.0, s.1, s.2))
      ]
    ]

-- The evidence that the Azure validator accepts is trusted in full, with the session's commitment in
-- the place of the key that came with it.
pub azure_accepted :
    (lib : Snp.X509) (tpm : AzureSnp.Tpm) (unmarshal : Bytes → Option AzureSnp.Evidence)
    (base64_decode : Bytes → Option Bytes) (clock : ℕ → Time) (roots : List lib.Certificate)
    (pins : Pins) (launch : Text) (min_tcb : ℕ) (evidence bind_data nonce : Bytes)
    {res : AttestationResult}
    → validate
        (azure_snp_verify lib tpm unmarshal base64_decode clock roots pins launch min_tcb)
        evidence
        bind_data
        nonce
      ≡ some res
    → (ev : AzureSnp.Evidence) × (parse_evidence unmarshal base64_decode evidence ≡ some ev)
      × IsTrusted lib tpm clock
          (record ev { channel_key = bind_data })
          roots
          nonce
          pins
          launch
          min_tcb
unfolding validate azure_snp_verify
azure_accepted lib tpm unmarshal base64_decode clock roots pins launch min_tcb evidence bind_data
      nonce h =
    elim (Option-cases (parse_evidence unmarshal base64_decode evidence)) [
      | inl n ↦ absurd (ground (arith, n, h))
      | inr (ev, p) ↦
          elim (Result-cases (
            AzureSnp.verify_azure_snp lib tpm clock (record ev { channel_key = bind_data }) roots
              nonce pins launch min_tcb)) [
                | inr (e, f) ↦ absurd (ground (arith, p, f, h))
                | inl ((m, k), f) ↦
                    let s =
                      verify_azure_snp-IsTrusted lib tpm clock
                        (record ev { channel_key = bind_data }) roots nonce pins launch min_tcb f in
                    (ev, p, s.0)
              ]
    ]

-- The document that the Nitro validator accepts is pinned, and its key is the session's commitment.
pub nitro_accepted :
    (cose : Nitro.Cose) (base64_decode : Bytes → Option Bytes) (roots : cose.CertPool) (pins : Pins)
    (evidence bind_data nonce : Bytes) {res : AttestationResult}
    → validate (nitro_verify cose base64_decode roots pins) evidence bind_data nonce ≡ some res
    → (b : Bytes) × (base64_decode evidence ≡ some b)
      × ((doc : NitroDoc) × IsPinned cose b roots nonce pins doc × (doc.public_key ≡ bind_data))
unfolding validate nitro_verify
nitro_accepted cose base64_decode roots pins evidence bind_data nonce h =
    elim (Option-cases (base64_decode evidence)) [
      | inl n ↦ absurd (ground (arith, n, h))
      | inr (b, p) ↦ elim (Result-cases (Nitro.verify_nitro_doc cose b roots nonce pins)) [
        | inr (e, f) ↦ absurd (ground (arith, p, f, h))
        | inl ((m, k), f) ↦ elim (Bool-cases (codes_eq k bind_data)) [
          | inr other ↦ absurd (ground (arith, p, f, other, h))
          | inl same ↦
              let s = verify_nitro_doc-IsPinned cose b roots nonce pins f in
              (b, p, (s.0, s.1, sym s.3 ∙ codes_eq→eq k bind_data same))
        ]
      ]
    ]
