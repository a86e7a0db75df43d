-- ===== src/Attest/AzureSnp/Sound.antt =====
-- What evidence that passed the checks is known to be.
use dispatcher.Prelude.{
  ℕ, ◌%◌, ◌^◌, true, false, List, [], ◌∷◌, some, ◌≡◌, ◌≢◌, arith, take, length, All, Any, ok,
  >>=_ok, check-ok, require-ok, check-true, not→false, not_empty_ok, ok_injective, subst, sym, ap,
  ◌∙◌, ==_iff, codes_eq→eq,
}
use dispatcher.Types.{Time}
use dispatcher.Attest.Bytes.{Bytes, Text, hex, fold_eq}
use dispatcher.Attest.Keys.{RsaKey}
use dispatcher.Attest.Policy.{tcb_components_gte}
use dispatcher.Attest.Snp
use dispatcher.Attest.AzureSnp.{
  Evidence, Pins, Pcrs, QuoteInfo, AttestationData, Tpm, Verified, lookup, member, or_nil,
  check_report, check_quote, check_quoted_pcrs, check_pins, verify_evidence, verify_azure_snp,
  hcl_ak_pub, binding_nonce, selected_values,
}
use dispatcher.Attest.AzureSnp.Chained.{IsChained, IsNotRevoked, chain_ok, check_revocation-ok}

pub member→Any : (i : ℕ) (js : List ℕ) → member i js ≡ true → Any (λ j. j ≡ i) js
unfolding member
member→Any i [] h = cc
member→Any i (j ∷ js) h = ground (arith, member→Any i js)

-- The pin names a PCR that the quote covers, and its value.
abbrev pub IsMeasured : List ℕ → Pcrs → ℕ × Text → Type 0
IsMeasured quoted pcrs pin =
    Any (λ j. j ≡ pin.0) quoted
    × ((v : Bytes) × (lookup (pin.0 % 2 ^ 32) pcrs ≡ some v) × (hex v ≡ pin.1))

check_pins-ok :
    (pins : Pins) (quoted : List ℕ) (pcrs : Pcrs) {u : Unit {0}}
    → check_pins pins quoted pcrs ≡ ok u
    → All (IsMeasured quoted pcrs) pins
unfolding check_pins
check_pins-ok [] quoted pcrs h = tt
check_pins-ok ((i, want) ∷ pins) quoted pcrs h =
    let s1 = check-ok _ _ _ h in
    let s2 = require-ok _ _ _ s1.1 in
    let s3 = check-ok _ _ _ s2.2 in
    (
      (member→Any i quoted s1.0, (s2.0, s2.1, codes_eq→eq _ _ s3.0)),
      check_pins-ok pins quoted pcrs s3.1,
    )

module _ (lib : Snp.X509) (tpm : Tpm) where
  open lib use {
    Certificate, RevocationList, PublicKey, parse_certificate, check_signature_from, p384_key,
    ecdsa_verify, sha256, sha384, not_before, not_after, serial_number, crl_distribution_points,
    crl_signature_from, next_update, revoked_serials, parse_revocation_list,
  }
  open tpm use {fetch_crl, rsa_verify, decode_attestation_data}

  -- A report that a genuine processor signed, with the policy that a run demands.
  pub record IsGenuine (clock : ℕ → Time) (ev : Evidence) (roots : List Certificate) (min_tcb : ℕ)
      (rep : Snp.SnpReport) : Type 0 where
    pub vcek : Certificate
    pub ask : Certificate
    pub ark : Certificate
    pub key : PublicKey
    pub report : Snp.parse_snp_report ev.snp_report ≡ some rep
    pub has_vcek : parse_certificate ev.vcek ≡ some vcek
    pub has_ask : parse_certificate ev.ask ≡ some ask
    pub chained : IsChained lib tpm (clock 0) roots vcek ask ark
    pub has_key : p384_key vcek ≡ some key
    pub signed : ecdsa_verify key (sha384 rep.signed) rep.sig_r rep.sig_s ≡ true
    pub unrevoked : IsNotRevoked lib tpm (clock 1) vcek ask ark
    pub debug_off : Snp.debug_enabled rep.policy ≡ false
    pub migration_off : Snp.migration_enabled rep.policy ≡ false
    pub top_level : rep.vmpl ≡ 0
    pub tcb_met : tcb_components_gte rep.reported_tcb min_tcb ≡ true

  -- A quote of the PCRs that the key bound to the report signed for this run.
  pub record IsQuoted (ev : Evidence) (rep : Snp.SnpReport) (nonce : Bytes) (quoted : List ℕ)
      : Type 0 where
    pub ak : RsaKey
    pub ad : AttestationData
    pub qi : QuoteInfo
    pub values : Bytes
    pub bound : take 32 rep.report_data ≡ sha256 ev.runtime_data
    pub has_ak : hcl_ak_pub lib tpm ev.runtime_data ≡ ok ak
    pub signed : rsa_verify ak (sha256 ev.quote) ev.quote_sig ≡ true
    pub decoded : decode_attestation_data ev.quote ≡ some ad
    pub tagged : ad.tagged_quote ≡ true
    pub has_info : ad.quote_info ≡ some qi
    pub bank : qi.over_sha256 ≡ true
    pub fresh : ad.extra_data ≡ binding_nonce lib tpm nonce ev.channel_key
    pub collected : selected_values qi.selected ev.pcrs ≡ ok values
    pub digest : sha256 values ≡ qi.pcr_digest
    pub covers : qi.selected ≡ quoted

  check_report-IsGenuine :
      (clock : ℕ → Time) (ev : Evidence) (roots : List Certificate) (min_tcb : ℕ)
      {rep : Snp.SnpReport}
      → check_report lib tpm clock ev roots min_tcb ≡ ok rep
      → IsGenuine clock ev roots min_tcb rep
  unfolding check_report Snp.verify_snp_signature
  check_report-IsGenuine clock ev roots min_tcb {rep} h =
      let r = require-ok _ _ _ h in
      let v = require-ok _ _ _ r.2 in
      let a = require-ok _ _ _ v.2 in
      let c = >>=_ok _ _ a.2 in
      let s = >>=_ok _ _ c.2 in
      let alg = check-ok _ _ _ s.1 in
      let key = require-ok _ _ _ alg.1 in
      let x = >>=_ok _ _ s.2 in
      let d = check-ok _ _ _ x.2 in
      let m = check-ok _ _ _ d.1 in
      let z = check-ok _ _ _ m.1 in
      let t = check-ok _ _ _ z.1 in
      subst (IsGenuine clock ev roots min_tcb) (ok_injective t.1) (record {
        vcek = v.0;
        ask = a.0;
        ark = c.0;
        key = key.0;
        report = r.1;
        has_vcek = v.1;
        has_ask = a.1;
        chained = chain_ok lib tpm _ _ _ _ c.1;
        has_key = key.1;
        signed = check-true _ _ key.2;
        unrevoked = check_revocation-ok lib tpm _ _ _ _ x.1;
        debug_off = not→false _ d.0;
        migration_off = not→false _ m.0;
        top_level = (==_iff _ _).0 z.0;
        tcb_met = t.0;
      })

  check_quote-IsQuoted :
      (ev : Evidence) (rep : Snp.SnpReport) (nonce : Bytes) {quoted : List ℕ}
      → check_quote lib tpm ev rep nonce ≡ ok quoted
      → (length nonce ≡ 32) × IsQuoted ev rep nonce quoted
  unfolding check_quote check_quoted_pcrs
  check_quote-IsQuoted ev rep nonce h =
      let b = check-ok _ _ _ h in
      let k = >>=_ok _ _ b.1 in
      let s = check-ok _ _ _ k.2 in
      let d = require-ok _ _ _ s.1 in
      let t = check-ok _ _ _ d.2 in
      let i = require-ok _ _ _ t.1 in
      let n = check-ok _ _ _ i.2 in
      let f = check-ok _ _ _ n.1 in
      let q = >>=_ok _ _ f.1 in
      let bank = check-ok _ _ _ q.1 in
      let vs = >>=_ok _ _ bank.1 in
      (
        (==_iff _ _).0 n.0,
        record {
          ak = k.0;
          ad = d.0;
          qi = i.0;
          values = vs.0;
          bound = codes_eq→eq _ _ b.0;
          has_ak = k.1;
          signed = s.0;
          decoded = d.1;
          tagged = t.0;
          has_info = i.1;
          bank = bank.0;
          fresh = codes_eq→eq _ _ f.0;
          collected = vs.1;
          digest = codes_eq→eq _ _ (check-true _ _ vs.2);
          covers = ok_injective q.2;
        },
      )

  -- The evidence of a machine that may run the workload.
  pub record IsTrusted (clock : ℕ → Time) (ev : Evidence) (roots : List Certificate) (nonce : Bytes)
      (pins : Pins) (measurement : Text) (min_tcb : ℕ) : Type 0 where
    pub rep : Snp.SnpReport
    pub quoted : List ℕ
    pub genuine : IsGenuine clock ev roots min_tcb rep
    pub quote_of_run : IsQuoted ev rep nonce quoted
    pub nonce_length : length nonce ≡ 32
    pub firmware_pinned : measurement ≢ []
    pub firmware : fold_eq (hex rep.measurement) measurement ≡ true
    pub pcrs_pinned : pins ≢ []
    pub measured : All (IsMeasured quoted ev.pcrs) pins

  -- Evidence that verifyAzureSNP accepts is a report that a genuine, unrevoked processor signed, with
  -- debugging and migration off, and a quote of this run by the key bound to it, of the pinned
  -- firmware and of every pinned PCR; it returns PCR 11 and the channel key of the evidence.
  pub verify_azure_snp-IsTrusted :
      (clock : ℕ → Time) (ev : Evidence) (roots : List Certificate) (nonce : Bytes) (pins : Pins)
      (measurement : Text) (min_tcb : ℕ) {m : Text} {k : Bytes}
      → verify_azure_snp lib tpm clock ev roots nonce pins measurement min_tcb ≡ ok (m, k)
      → IsTrusted clock ev roots nonce pins measurement min_tcb
        × (m ≡ hex (or_nil (lookup 11 ev.pcrs)))
        × (k ≡ ev.channel_key)
  unfolding verify_azure_snp verify_evidence
  verify_azure_snp-IsTrusted clock ev roots nonce pins measurement min_tcb h =
      let v = >>=_ok _ _ h in
      let g = >>=_ok _ _ v.1 in
      let q = >>=_ok _ _ g.2 in
      let e = ok_injective q.2 in
      let p = check-ok _ _ _ v.2 in
      let f = check-ok _ _ _ p.1 in
      let n = check-ok _ _ _ f.1 in
      let all = >>=_ok _ _ n.1 in
      let out = ok_injective all.2 in
      (
        record {
          rep = g.0;
          quoted = q.0;
          genuine = check_report-IsGenuine clock ev roots min_tcb g.1;
          quote_of_run = (check_quote-IsQuoted ev g.0 nonce q.1).1;
          nonce_length = (check_quote-IsQuoted ev g.0 nonce q.1).0;
          firmware_pinned = not_empty_ok _ p.0;
          firmware = subst (λ w. fold_eq w.launch_measurement measurement ≡ true) (sym e) f.0;
          pcrs_pinned = not_empty_ok _ n.0;
          measured =
              subst (λ w. All (IsMeasured w.quoted w.pcrs) pins) (sym e)
                (check_pins-ok pins v.0.quoted v.0.pcrs all.1);
        },
        sym (ap (λ (q : Text × Bytes). q.0) out)
            ∙ ap (λ (w : Verified). hex (or_nil (lookup 11 w.pcrs))) (sym e),
        sym (ap (λ (q : Text × Bytes). q.1) out) ∙ ap (λ (w : Verified). w.channel_key) (sym e),
      )
