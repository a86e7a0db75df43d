-- ===== src/Tests/Measured.antt =====
-- Measured machines: the evidence of an Azure VM, the matrix and a confidential run, with toy
-- cryptography and a toy cloud.
use dispatcher.Prelude.{
  ℕ, ◌++◌, true, false, [], ◌∷◌, none, some, ◌≡◌, refl, codes, ok, ◌>>=◌, check, require,
}
use dispatcher.Types.{Time}
use dispatcher.Attest.Bytes.{hex, fold_eq}
use dispatcher.Attest.Snp
use dispatcher.Attest.AzureSnp
use dispatcher.Attest.AzureSnp.{
  Tpm, Evidence, Pins, verify_azure_snp, check_report, check_quote, check_revocation, hcl_ak_pub,
  check_quoted_pcrs, check_pins, verify_evidence, selected_values, current_crl, not_revoked,
  binding_nonce,
}
use dispatcher.Attest.AzureSnp.Sound.{IsTrusted, verify_azure_snp-IsTrusted}
use dispatcher.Attest.Nitro.{Cose}
use dispatcher.Attest.Matrix.{nonce}
use dispatcher.Attest.Matrix.Fails.{Demand}
use dispatcher.Tests.Attested.{fill, run_nonce, key, jose, keys}

-- One certificate that signs everything, and hashes of zeros.
abbrev pub x509 : Snp.X509
x509 = record {
  Certificate = Unit;
  RevocationList = Unit;
  PublicKey = Unit;
  parse_certificate = λ b. some tt;
  parse_revocation_list = λ b. some tt;
  not_before = λ c. 0;
  not_after = λ c. 100;
  serial_number = λ c. 3;
  crl_distribution_points = λ c. codes "kds" ∷ [];
  p384_key = λ c. some tt;
  check_signature_from = λ c d. true;
  crl_signature_from = λ l c. true;
  next_update = λ l. some 90;
  revoked_serials = λ l. 4 ∷ [];
  ecdsa_verify = λ k d r s. true;
  sha256 = λ b. fill 32 0;
  sha384 = λ b. fill 48 0;
}

abbrev pub tpm : Tpm
tpm = record {
  decode_attestation_data = λ b. some (record {
    tagged_quote = true;
    extra_data = fill 32 0;
    quote_info = some (record { over_sha256 = true; selected = 11 ∷ []; pcr_digest = fill 32 0 });
  });
  parse_runtime_data = λ b.
      some (record { kid = codes "HCLAkPub"; n = fill 256 255; e = 1 ∷ 0 ∷ 1 ∷ []; x5c = [] } ∷ []);
  raw_url_decode = λ t. some t;
  rsa_verify = λ k d s. true;
  fetch_crl = λ u. some [];
}

-- All zeros, but for the signature algorithm.
abbrev pub evidence : Evidence
evidence = record {
  snp_report = fill 52 0 ++ 1 ∷ fill 1131 0;
  vcek = [];
  ask = [];
  runtime_data = [];
  quote = [];
  quote_sig = [];
  pcrs = (11, 0xab ∷ []) ∷ [];
  channel_key = key;
}

abbrev pub pins : Pins
pins = (11, codes "ab") ∷ []

abbrev pub clock : ℕ → Time
clock i = 50

evidence_accepted :
    verify_azure_snp x509 tpm clock evidence (tt ∷ []) run_nonce pins (hex (fill 48 0)) 0
    ≡ ok (codes "ab", key)
unfolding verify_azure_snp verify_evidence check_report check_quote check_revocation current_crl
    not_revoked hcl_ak_pub check_quoted_pcrs selected_values check_pins Snp.verify_snp_chain
    Snp.verify_snp_signature ◌>>=◌ check require hex fold_eq
evidence_accepted = refl

verify_azure_snp-IsTrusted_example :
    IsTrusted x509 tpm clock evidence (tt ∷ []) run_nonce pins (hex (fill 48 0)) 0
    × (codes "ab" ≡ hex (0xab ∷ []))
    × (key ≡ key)
unfolding AzureSnp.lookup
verify_azure_snp-IsTrusted_example =
    verify_azure_snp-IsTrusted x509 tpm clock evidence (tt ∷ []) run_nonce pins (hex (fill 48 0)) 0
      evidence_accepted

abbrev pub cose : Cose
cose = record {
  Message = Unit;
  Certificate = Unit;
  CertPool = Unit;
  Verifier = Unit;
  unmarshal_tagged = λ b. none;
  unmarshal_untagged = λ b. some tt;
  document = λ m. some (record {
    pcrs = (0, 0xab ∷ []) ∷ [];
    certificate = [];
    ca_bundle = [];
    public_key = key;
    nonce = run_nonce;
  });
  parse_certificate = λ b. some tt;
  verify_chain = λ c r i. true;
  is_ca = λ c. false;
  es384_verifier = λ c. some tt;
  verify_message = λ m v. true;
}

abbrev demand : Demand jose x509 tpm cose (λ b. some evidence) (λ b. some b)
demand = record {
  clock = clock;
  keys = keys;
  digests = codes "sha256:ab" ∷ [];
  expected_type = codes "sev";
  roots = tt ∷ [];
  pins = pins;
  launch = hex (fill 48 0);
  tcb_floor = 0;
  nitro_roots = tt;
}
