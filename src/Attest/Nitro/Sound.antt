-- ===== src/Attest/Nitro/Sound.antt =====
-- What a Nitro document that passed the checks is known to say.
use dispatcher.Prelude.{
  ℕ, true, false, List, [], ◌∷◌, some, ==_iff, ◌≡◌, ◌≢◌, sym, ap, length, All, codes_eq→eq, subst,
  ok, >>=_ok, check-ok, require-ok, ok_injective, not→false, not_empty_ok,
}
use dispatcher.Attest.Bytes.{Bytes, Text, hex}
use dispatcher.Attest.AzureSnp.{Pcrs, Pins, lookup, or_nil}
use dispatcher.Attest.Nitro.{
  NitroDoc, Cose, check_nitro_pins, parse_message, parse_bundle, check_document, verify_nitro_doc,
  is_all_zero_hex, is_all_zero_bytes,
}

-- The document measures the pinned value, and neither is all zeros.
pub record Measures (pcrs : Pcrs) (pin : ℕ × Text) : Type 0 where
  pub value : Bytes
  pub found : lookup pin.0 pcrs ≡ some value
  pub equal : hex value ≡ pin.1
  pub pin_nonzero : is_all_zero_hex pin.1 ≡ false
  pub value_nonzero : is_all_zero_bytes value ≡ false

check_nitro_pins-ok :
    (pins : Pins) (pcrs : Pcrs) {u : Unit {0}}
    → check_nitro_pins pins pcrs ≡ ok u
    → All (Measures pcrs) pins
unfolding check_nitro_pins
check_nitro_pins-ok [] pcrs h = tt
check_nitro_pins-ok ((i, want) ∷ pins) pcrs h =
    let z = check-ok _ _ _ h in
    let g = require-ok _ _ _ z.1 in
    let v = check-ok _ _ _ g.2 in
    let e = check-ok _ _ _ v.1 in
    (
      record {
        value = g.0;
        found = g.1;
        equal = codes_eq→eq _ _ e.0;
        pin_nonzero = not→false _ z.0;
        value_nonzero = not→false _ v.0;
      },
      check_nitro_pins-ok pins pcrs e.1,
    )

module _ (cose : Cose) where
  open cose use {
    Message, Certificate, CertPool, Verifier, document, parse_certificate, verify_chain, is_ca,
    es384_verifier, verify_message,
  }

  -- An end-entity certificate under the root signed the document.
  pub record IsSigned (b : Bytes) (roots : CertPool) (doc : NitroDoc) : Type 0 where
    pub msg : Message
    pub leaf : Certificate
    pub inter : List Certificate
    pub verifier : Verifier
    pub parsed : parse_message cose b ≡ some msg
    pub decoded : document msg ≡ some doc
    pub has_leaf : parse_certificate doc.certificate ≡ some leaf
    pub bundle : parse_bundle cose doc.ca_bundle ≡ some inter
    pub chained : verify_chain leaf roots inter ≡ true
    pub end_entity : is_ca leaf ≡ false
    pub has_verifier : es384_verifier leaf ≡ some verifier
    pub signed : verify_message msg verifier ≡ true

  -- The document of an enclave that may run the workload.
  pub record IsPinned (b : Bytes) (roots : CertPool) (nonce : Bytes) (pins : Pins) (doc : NitroDoc)
      : Type 0 where
    pub genuine : IsSigned b roots doc
    pub nonce_length : length nonce ≡ 32
    pub fresh : doc.nonce ≡ nonce
    pub has_key : doc.public_key ≢ []
    pub pcrs_pinned : pins ≢ []
    pub measured : All (Measures doc.pcrs) pins

  check_document-IsSigned :
      (b : Bytes) (roots : CertPool) {doc : NitroDoc}
      → check_document cose b roots ≡ ok doc
      → IsSigned b roots doc
  unfolding check_document
  check_document-IsSigned b roots h =
      let m = require-ok _ _ _ h in
      let d = require-ok _ _ _ m.2 in
      let l = require-ok _ _ _ d.2 in
      let i = require-ok _ _ _ l.2 in
      let c = check-ok _ _ _ i.2 in
      let ca = check-ok _ _ _ c.1 in
      let v = require-ok _ _ _ ca.1 in
      let s = check-ok _ _ _ v.2 in
      subst (IsSigned b roots) (ok_injective s.1) (record {
        msg = m.0;
        leaf = l.0;
        inter = i.0;
        verifier = v.0;
        parsed = m.1;
        decoded = d.1;
        has_leaf = l.1;
        bundle = i.1;
        chained = c.0;
        end_entity = not→false _ ca.0;
        has_verifier = v.1;
        signed = s.0;
      })

  -- A document that verifyNitroDoc accepts is signed under the root, is of this run, and measures every
  -- pin; the measurement and the key that it returns are the document's.
  pub verify_nitro_doc-IsPinned :
      (b : Bytes) (roots : CertPool) (nonce : Bytes) (pins : Pins) {m : Text} {k : Bytes}
      → verify_nitro_doc cose b roots nonce pins ≡ ok (m, k)
      → (doc : NitroDoc) × IsPinned b roots nonce pins doc
        × (m ≡ hex (or_nil (lookup 0 doc.pcrs)))
        × (k ≡ doc.public_key)
  unfolding verify_nitro_doc
  verify_nitro_doc-IsPinned b roots nonce pins h =
      let d = >>=_ok _ _ h in
      let l = check-ok _ _ _ d.2 in
      let n = check-ok _ _ _ l.1 in
      let k = check-ok _ _ _ n.1 in
      let p = check-ok _ _ _ k.1 in
      let all = >>=_ok _ _ p.1 in
      let out = ok_injective all.2 in
      (
        d.0,
        record {
          genuine = check_document-IsSigned _ _ d.1;
          nonce_length = (==_iff _ _).0 l.0;
          fresh = codes_eq→eq _ _ n.0;
          has_key = not_empty_ok _ k.0;
          pcrs_pinned = not_empty_ok _ p.0;
          measured = check_nitro_pins-ok _ _ all.1;
        },
        sym (ap (λ (q : Text × Bytes). q.0) out),
        sym (ap (λ (q : Text × Bytes). q.1) out),
      )
