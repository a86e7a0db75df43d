-- ===== src/Attest/Matrix/Fails.antt =====
-- What it is for a session to fail a control, said of the evidence, and the validator of each backend.
use dispatcher.Prelude.{
  ℕ, ◌/◌, ◌%◌, ◌^◌, ◌<◌, true, false, List, [], ◌++◌, Option, some, ◌≡◌, ◌≢◌, ◌⊎◌, All, Any,
  get_elem?, codes, take, ok,
}
use dispatcher.Types.{Time}
use dispatcher.Attest.Bytes.{Bytes, Text, hex, fold_eq}
use dispatcher.Attest.Keys.{KeySet, RsaKey}
use dispatcher.Attest.Policy.{component, tcb_shifts}
use dispatcher.Attest.Snp
use dispatcher.Attest.AzureSnp
use dispatcher.Attest.AzureSnp.{Pins, lookup}
use dispatcher.Attest.ConfidentialSpace
use dispatcher.Attest.ConfidentialSpace.{CsToken}
use dispatcher.Attest.ConfidentialSpace.Sound.{Carries}
use dispatcher.Attest.Nitro
use dispatcher.Attest.Nitro.{NitroDoc}
use dispatcher.Attest.Validators.{Verify, cs_verify, nitro_verify, parse_evidence, azure_snp_verify}
use dispatcher.Attest.Matrix.{
  Control, Backend, genuine_tee, measurement, nonce, channel_binding, debug_off, migration_off,
  min_tcb, revocation, measured_agent, gcp_confidential_space, azure_snp, aws_nitro,
}

-- A list holds no text that equals another up to case.
abbrev pub Lacks : List Text → Text → Type 0
Lacks texts t = All (λ x. fold_eq x t ≡ false) texts

-- The evidence measures another value than the pin.
abbrev pub Differs : (ℕ → Option Bytes) → ℕ × Text → Type 0
Differs value pin = (v : Bytes) → value pin.0 ≡ some v → hex v ≢ pin.1

module _ (jose : ConfidentialSpace.Jose) (lib : Snp.X509) (tpm : AzureSnp.Tpm) (cose : Nitro.Cose)
    (unmarshal : Bytes → Option AzureSnp.Evidence) (base64_decode : Bytes → Option Bytes) where
  open lib use {
    Certificate, parse_certificate, check_signature_from, p384_key, ecdsa_verify, sha384,
    serial_number, crl_distribution_points, parse_revocation_list, revoked_serials,
  }
  open cose use {CertPool, Message, document, verify_chain, is_ca, es384_verifier, verify_message}

  -- What the operator pins for the backends.
  pub record Demand : Type 0 where
    pub clock : ℕ → Time
    pub keys : KeySet
    pub digests : List Text
    pub expected_type : Text
    pub roots : List Certificate
    pub pins : Pins
    pub launch : Text
    pub tcb_floor : ℕ
    pub nitro_roots : CertPool

  -- The validator of each backend.
  unfoldable pub validator : Backend → Demand → Verify
  validator gcp_confidential_space d =
      cs_verify jose (d.clock 0) d.keys d.digests d.expected_type d.tcb_floor
  validator azure_snp d =
      azure_snp_verify lib tpm unmarshal base64_decode d.clock d.roots d.pins d.launch d.tcb_floor
  validator aws_nitro d = nitro_verify cose base64_decode d.nitro_roots d.pins

  module _ (d : Demand) (evidence bind_data run_nonce : Bytes) where
    -- What it is for a token to fail a control, whichever pinned key signed it.
    abbrev pub CsFails : Control → Type 0
    CsFails genuine_tee = (t : CsToken) → ¬ Carries jose d.keys evidence t
    CsFails measurement =
        (t : CsToken) → Carries jose d.keys evidence t → Lacks d.digests t.image_digest
    CsFails measured_agent =
        (t : CsToken) → Carries jose d.keys evidence t → Lacks d.digests t.image_digest
    CsFails nonce =
        (t : CsToken) → Carries jose d.keys evidence t → Lacks t.eat_nonce (hex run_nonce)
    CsFails channel_binding =
        (bind_data ≢ [])
        × ((t : CsToken)
            → Carries jose d.keys evidence t
            → Lacks t.eat_nonce (hex (jose.sha256 bind_data)))
    CsFails debug_off =
        (t : CsToken)
        → Carries jose d.keys evidence t
        → fold_eq t.dbg_stat (codes "disabled-since-boot") ≡ false
    CsFails min_tcb = 0 < d.tcb_floor
    CsFails migration_off = Unit
    CsFails revocation = Unit

    -- The evidence after the session's commitment has replaced its key.
    abbrev pub HasEvidence : AzureSnp.Evidence → Type 0
    HasEvidence ev = parse_evidence unmarshal base64_decode evidence ≡ some ev

    abbrev pub HasReport : AzureSnp.Evidence → Snp.SnpReport → Type 0
    HasReport ev rep = Snp.parse_snp_report ev.snp_report ≡ some rep

    -- A bit of byte 10 of the report, which holds the policy's DEBUG and MIGRATE_MA, is set.
    abbrev pub HasPolicyBit : ℕ → AzureSnp.Evidence → Type 0
    HasPolicyBit unit ev =
        All (λ b. b < 256) ev.snp_report
        × ((v : ℕ) × (get_elem? ev.snp_report 10 ≡ some v) × (v / unit % 2 ≡ 1))

    -- What the quote says.
    abbrev pub HasQuote : AzureSnp.Evidence → AzureSnp.AttestationData → Type 0
    HasQuote ev ad = tpm.decode_attestation_data ev.quote ≡ some ad

    -- The report does not bind the runtime data, or the key in it did not sign the quote.
    abbrev pub IsUnquoted : AzureSnp.Evidence → Type 0
    IsUnquoted ev =
        (rep : Snp.SnpReport) (ak : RsaKey)
        → HasReport ev rep
        → AzureSnp.hcl_ak_pub lib tpm ev.runtime_data ≡ ok ak
        → (take 32 rep.report_data ≢ lib.sha256 ev.runtime_data)
          ⊎ (tpm.rsa_verify ak (lib.sha256 ev.quote) ev.quote_sig ≡ false)

    -- The quote commits to something else than this nonce and this session.
    abbrev pub IsOfAnother : AzureSnp.Evidence → Type 0
    IsOfAnother ev =
        (ad : AzureSnp.AttestationData)
        → HasQuote ev ad
        → ad.extra_data ≢ lib.sha256 (run_nonce ++ bind_data)

    -- What was signed is no quote of PCRs in SHA-256, its digest is not that of the values that came
    -- with it, or it does not cover a pinned PCR, or the value of a pinned PCR is another.
    abbrev pub IsUnmeasured : AzureSnp.Evidence → Type 0
    IsUnmeasured ev =
        (ad : AzureSnp.AttestationData) (qi : AzureSnp.QuoteInfo) (values : Bytes)
        → HasQuote ev ad
        → ad.quote_info ≡ some qi
        → AzureSnp.selected_values qi.selected ev.pcrs ≡ ok values
        → (ad.tagged_quote ≡ false)
          ⊎ (qi.over_sha256 ≡ false)
          ⊎ (lib.sha256 values ≢ qi.pcr_digest)
          ⊎ Any (λ pin. All (λ j. j ≢ pin.0) qi.selected) d.pins
          ⊎ Any (Differs (λ i. lookup (i % 2 ^ 32) ev.pcrs)) d.pins

    abbrev pub IsRevoked : AzureSnp.Evidence → Type 0
    IsRevoked ev =
        (vcek ask : Certificate) (url : Text) (body : Bytes) (crl : lib.RevocationList)
        → parse_certificate ev.vcek ≡ some vcek
        → parse_certificate ev.ask ≡ some ask
        → AzureSnp.first (crl_distribution_points ask) ≡ some url
        → tpm.fetch_crl url ≡ some body
        → parse_revocation_list body ≡ some crl
        → Any (λ s. (s ≡ serial_number vcek) ⊎ (s ≡ serial_number ask)) (revoked_serials crl)

    -- No root signed the certificate that signed the one of the report, or its key did not sign it.
    abbrev pub IsForged : AzureSnp.Evidence → Type 0
    IsForged ev =
        (rep : Snp.SnpReport) (vcek ask ark : Certificate) (key : lib.PublicKey)
        → HasReport ev rep
        → parse_certificate ev.vcek ≡ some vcek
        → parse_certificate ev.ask ≡ some ask
        → p384_key vcek ≡ some key
        → Any (λ r. r ≡ ark) d.roots
        → (check_signature_from ask ark ≡ false)
          ⊎ (check_signature_from vcek ask ≡ false)
          ⊎ (ecdsa_verify key (sha384 rep.signed) rep.sig_r rep.sig_s ≡ false)

    -- What it is for an Azure VM to fail a control.
    abbrev pub AzureFails : Control → AzureSnp.Evidence → Type 0
    AzureFails genuine_tee ev = IsForged ev ⊎ IsUnquoted ev
    AzureFails measurement ev =
        ((rep : Snp.SnpReport) → HasReport ev rep → fold_eq (hex rep.measurement) d.launch ≡ false)
        ⊎ IsUnquoted ev
        ⊎ IsUnmeasured ev
    AzureFails nonce ev = IsUnquoted ev ⊎ IsOfAnother ev
    AzureFails channel_binding ev = IsUnquoted ev ⊎ IsOfAnother ev
    AzureFails debug_off ev = HasPolicyBit 8 ev
    AzureFails migration_off ev = HasPolicyBit 4 ev
    AzureFails min_tcb ev =
        (rep : Snp.SnpReport)
        → HasReport ev rep
        → Any (λ s. component rep.reported_tcb s < component d.tcb_floor s) tcb_shifts
    AzureFails revocation ev = IsRevoked ev
    AzureFails measured_agent ev = IsUnquoted ev ⊎ IsUnmeasured ev

    -- The document of an enclave, in the session's evidence.
    abbrev pub HasDocument : Message → NitroDoc → Type 0
    HasDocument msg doc =
        (b : Bytes) × (base64_decode evidence ≡ some b)
        × (Nitro.parse_message cose b ≡ some msg)
        × (document msg ≡ some doc)

    -- No end-entity certificate under the root signed the document.
    abbrev pub IsUnsigned : Type 0
    IsUnsigned =
        (msg : Message) (doc : NitroDoc) (leaf : cose.Certificate) (inter : List cose.Certificate)
        (verifier : cose.Verifier)
        → HasDocument msg doc
        → cose.parse_certificate doc.certificate ≡ some leaf
        → Nitro.parse_bundle cose doc.ca_bundle ≡ some inter
        → es384_verifier leaf ≡ some verifier
        → (verify_chain leaf d.nitro_roots inter ≡ false)
          ⊎ (is_ca leaf ≡ true)
          ⊎ (verify_message msg verifier ≡ false)

    -- What it is for an enclave to fail a control.
    abbrev pub NitroFails : Control → Type 0
    NitroFails genuine_tee = IsUnsigned
    NitroFails nonce =
        (msg : Message) (doc : NitroDoc) → HasDocument msg doc → doc.nonce ≢ run_nonce
    NitroFails channel_binding =
        (msg : Message) (doc : NitroDoc) → HasDocument msg doc → doc.public_key ≢ bind_data
    NitroFails measurement =
        (msg : Message) (doc : NitroDoc)
        → HasDocument msg doc
        → Any (Differs (λ i. lookup i doc.pcrs)) d.pins
    NitroFails measured_agent =
        (msg : Message) (doc : NitroDoc)
        → HasDocument msg doc
        → Any (Differs (λ i. lookup i doc.pcrs)) d.pins
    NitroFails _ = Unit

    -- What it is for a session to fail a control of its backend; a control that the backend does not
    -- know asks nothing.
    abbrev pub Fails : Backend → Control → Type 0
    Fails gcp_confidential_space c = CsFails c
    Fails azure_snp c = (ev : AzureSnp.Evidence) → HasEvidence ev → AzureFails c ev
    Fails aws_nitro c = NitroFails c
