-- ===== src/Attest/AzureSnp/Chained.antt =====
-- The certificates of a report that passed the checks.
use dispatcher.Prelude.{
  ℕ, ◌≤◌, true, List, [], ◌∷◌, some, ◌≡◌, ◌≢◌, arith, All, Any, ok, >>=_ok, check-ok, require-ok,
  require-some, ok_injective, Option-cases, subst, sym, Bool-cases, inl, inr,
}
use dispatcher.Types.{Time}
use dispatcher.Attest.Bytes.{Bytes, Text}
use dispatcher.Attest.Snp
use dispatcher.Attest.AzureSnp.{Tpm, first, current_crl, is_current, not_revoked, check_revocation}

module _ (lib : Snp.X509) (tpm : Tpm) where
  open lib use {
    Certificate, RevocationList, PublicKey, parse_certificate, check_signature_from, p384_key,
    ecdsa_verify, sha256, sha384, not_before, not_after, serial_number, crl_distribution_points,
    crl_signature_from, next_update, revoked_serials, parse_revocation_list,
  }
  open tpm use {fetch_crl, rsa_verify, decode_attestation_data}

  -- The certificates are valid now and lead to a root.
  pub record IsChained (now : Time) (roots : List Certificate) (vcek ask ark : Certificate)
      : Type 0 where
    pub vcek_valid : (not_before vcek ≤ now) × (now ≤ not_after vcek)
    pub ask_valid : (not_before ask ≤ now) × (now ≤ not_after ask)
    pub vcek_signed : check_signature_from vcek ask ≡ true
    pub ask_signed : check_signature_from ask ark ≡ true
    pub is_root : Any (λ r. r ≡ ark) roots

  -- The list at the distribution point is signed by the same root, is current, and names neither.
  pub record IsNotRevoked (now : Time) (vcek ask ark : Certificate) : Type 0 where
    pub url : Text
    pub body : Bytes
    pub crl : RevocationList
    pub until : Time
    pub points : first (crl_distribution_points ask) ≡ some url
    pub fetched : fetch_crl url ≡ some body
    pub parsed : parse_revocation_list body ≡ some crl
    pub crl_signed : crl_signature_from crl ark ≡ true
    pub has_until : next_update crl ≡ some until
    pub current : now ≤ until
    pub absent : All (λ s. (s ≢ serial_number vcek) × (s ≢ serial_number ask)) (revoked_serials crl)

  within_validity_ok :
      (now : Time) (c : Certificate)
      → Snp.within_validity lib now c ≡ true
      → (not_before c ≤ now) × (now ≤ not_after c)
  unfolding Snp.within_validity
  within_validity_ok now c h = ground arith

  issuer_ok :
      (ask : Certificate) (roots : List Certificate) {ark : Certificate}
      → Snp.issuer lib ask roots ≡ some ark
      → (check_signature_from ask ark ≡ true) × Any (λ r. r ≡ ark) roots
  unfolding Snp.issuer
  issuer_ok ask [] h = cc
  issuer_ok ask (r ∷ roots) {ark} h = elim (Bool-cases (check_signature_from ask r)) [
    | inl y ↦ ground (arith, y)
    | inr n ↦ let ih = issuer_ok ask roots {ark = ark} (rw n at h) in (ih.0, inr ih.1)
  ]

  pub chain_ok :
      (now : Time) (vcek ask : Certificate) (roots : List Certificate) {ark : Certificate}
      → Snp.verify_snp_chain lib now vcek ask roots ≡ ok ark
      → IsChained now roots vcek ask ark
  unfolding Snp.verify_snp_chain
  chain_ok now vcek ask roots h =
      let s1 = check-ok _ _ _ h in
      let s2 = check-ok _ _ _ s1.1 in
      let s3 = check-ok _ _ _ s2.1 in
      let s4 = check-ok _ _ _ s3.1 in
      let last = issuer_ok ask roots (require-some _ _ s4.1) in
      record {
        vcek_valid = within_validity_ok now vcek s2.0;
        ask_valid = within_validity_ok now ask s3.0;
        vcek_signed = s4.0;
        ask_signed = last.0;
        is_root = last.1;
      }

  not_revoked-ok :
      (v a : ℕ) (es : List ℕ) {u : Unit {0}}
      → not_revoked lib tpm v a es ≡ ok u
      → All (λ s. (s ≢ v) × (s ≢ a)) es
  unfolding not_revoked
  not_revoked-ok v a [] h = tt
  not_revoked-ok v a (e ∷ es) h =
      let s1 = check-ok _ _ _ h in
      let s2 = check-ok _ _ _ s1.1 in
      ((λ q. ground (arith, s1.0), λ q. ground (arith, s2.0)), not_revoked-ok v a es s2.1)

  is_current_ok :
      (now : Time) (crl : RevocationList)
      → is_current lib tpm now crl ≡ true
      → (t : Time) × (next_update crl ≡ some t) × (now ≤ t)
  unfolding is_current
  is_current_ok now crl h = elim (Option-cases (next_update crl)) [
    | inl n ↦ absurd (ground (arith, n, h))
    | inr (t, s) ↦ (t, s, ground (arith, s, h))
  ]

  pub check_revocation-ok :
      (now : Time) (vcek ask ark : Certificate) {u : Unit {0}}
      → check_revocation lib tpm now vcek ask ark ≡ ok u
      → IsNotRevoked now vcek ask ark
  unfolding check_revocation current_crl
  check_revocation-ok now vcek ask ark h =
      let s0 = >>=_ok _ _ h in
      let s1 = require-ok _ _ _ s0.1 in
      let s2 = require-ok _ _ _ s1.2 in
      let s3 = require-ok _ _ _ s2.2 in
      let s4 = check-ok _ _ _ s3.2 in
      let s5 = check-ok _ _ _ s4.1 in
      let e = ok_injective s5.1 in
      let t = is_current_ok now s3.0 s5.0 in
      record {
        url = s1.0;
        body = s2.0;
        crl = s3.0;
        until = t.0;
        points = s1.1;
        fetched = s2.1;
        parsed = s3.1;
        crl_signed = s4.0;
        has_until = t.1;
        current = t.2;
        absent =
            subst
              (λ c.
                All (λ s. (s ≢ serial_number vcek) × (s ≢ serial_number ask)) (revoked_serials c))
              (sym e) (not_revoked-ok _ _ _ s0.2);
      }
