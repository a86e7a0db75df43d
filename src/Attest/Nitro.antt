-- ===== src/Attest/Nitro.antt =====
-- internal/attest/nitro.go: the document of a Nitro enclave. COSE, CBOR and the certificates come
-- from outside.
pub mod Sound
use dispatcher.Prelude.{
  ℕ, Bool, true, false, not, ◌||◌, ◌&&◌, List, [], ◌∷◌, Option, none, some, ◌==◌, if◌then◌else◌,
  length, is_empty, codes_eq, Result, ok, ◌>>=◌, ◌>>◌, check, require,
}
use dispatcher.Attest.Bytes.{Bytes, Text, hex}
use dispatcher.Attest.AzureSnp.{Pcrs, Pins, lookup, or_nil}

-- The fields of the document that are read.
pub record NitroDoc : Type 0 where
  pub pcrs : Pcrs
  pub certificate : Bytes
  pub ca_bundle : List Bytes
  pub public_key : Bytes
  pub nonce : Bytes

pub data NitroError : Type 0 where
  cose_unparsed payload_unparsed leaf_unparsed bundle_unparsed chain_invalid leaf_is_ca : NitroError
  no_verifier signature_invalid nonce_length nonce_mismatch no_public_key : NitroError
  no_pcr_pins zero_pin pcr_missing zero_pcr pcr_mismatch : NitroError
  evidence_undecoded unbound : NitroError

pub record Cose : Type 1 where
  pub Message : Type 0
  pub Certificate : Type 0
  pub CertPool : Type 0
  pub Verifier : Type 0
  pub unmarshal_tagged : Bytes → Option Message
  pub unmarshal_untagged : Bytes → Option Message
  -- The payload of a message, decoded.
  pub document : Message → Option NitroDoc
  pub parse_certificate : Bytes → Option Certificate
  -- leaf.Verify with the roots, the intermediates and any key usage.
  pub verify_chain : Certificate → CertPool → List Certificate → Bool
  pub is_ca : Certificate → Bool
  -- NewVerifier for ES384.
  pub es384_verifier : Certificate → Option Verifier
  pub verify_message : Message → Verifier → Bool

unfoldable pub all_equal : ℕ → List ℕ → Bool
all_equal v [] = true
all_equal v (c ∷ cs) = c == v && all_equal v cs

-- isAllZeroHex.
unfoldable pub is_all_zero_hex : Text → Bool
unfolding all_equal
is_all_zero_hex s = not (is_empty s) && all_equal b'0' s

-- isAllZeroBytes.
unfoldable pub is_all_zero_bytes : Bytes → Bool
unfolding all_equal
is_all_zero_bytes b = not (is_empty b) && all_equal 0 b

-- The loop of verifyNitroDoc over the pinned PCRs.
unfoldable pub check_nitro_pins : Pins → Pcrs → Result NitroError (Unit {0})
unfolding lookup hex is_all_zero_hex is_all_zero_bytes
check_nitro_pins [] pcrs = ok tt
check_nitro_pins ((i, want) ∷ pins) pcrs = do
  check (not (is_all_zero_hex want)) zero_pin
  got ← require (lookup i pcrs) pcr_missing
  check (not (is_all_zero_bytes got)) zero_pcr
  check (codes_eq (hex got) want) pcr_mismatch
  check_nitro_pins pins pcrs

module _ (cose : Cose) where
  open cose use {
    Message, Certificate, CertPool, unmarshal_tagged, unmarshal_untagged, document,
    parse_certificate, verify_chain, is_ca, es384_verifier, verify_message,
  }

  -- The tagged or the untagged form.
  unfoldable pub parse_message : Bytes → Option Message
  parse_message b = elim (unmarshal_tagged b) [ some m ↦ some m | none ↦ unmarshal_untagged b ]

  unfoldable pub parse_bundle : List Bytes → Option (List Certificate)
  parse_bundle [] = some []
  parse_bundle (der ∷ ders) = elim (parse_certificate der) [
    | none ↦ none
    | some c ↦ elim (parse_bundle ders) [ none ↦ none | some cs ↦ some (c ∷ cs) ]
  ]

  -- The chain and the signature: steps 1 and 2.
  unfoldable pub check_document : Bytes → CertPool → Result NitroError NitroDoc
  unfolding parse_message parse_bundle
  check_document b roots = do
    msg ← require (parse_message b) cose_unparsed
    doc ← require (document msg) payload_unparsed
    leaf ← require (parse_certificate doc.certificate) leaf_unparsed
    inter ← require (parse_bundle doc.ca_bundle) bundle_unparsed
    check (verify_chain leaf roots inter) chain_invalid
    check (not (is_ca leaf)) leaf_is_ca
    verifier ← require (es384_verifier leaf) no_verifier
    check (verify_message msg verifier) signature_invalid
    ok doc

  -- verifyNitroDoc, under NitroPolicy: the measurement and the bound key.
  unfoldable pub verify_nitro_doc :
      Bytes → CertPool → Bytes → Pins → Result NitroError (Text × Bytes)
  unfolding check_document check_nitro_pins hex lookup
  verify_nitro_doc b roots nonce pins = do
    doc ← check_document b roots
    check (length nonce == 32) nonce_length
    check (codes_eq doc.nonce nonce) nonce_mismatch
    check (not (is_empty doc.public_key)) no_public_key
    check (not (is_empty pins)) no_pcr_pins
    check_nitro_pins pins doc.pcrs
    ok (hex (or_nil (lookup 0 doc.pcrs)), doc.public_key)
