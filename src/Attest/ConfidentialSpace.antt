-- ===== src/Attest/ConfidentialSpace.antt =====
-- internal/attest/confidential_space.go and jws.go: the token of a Confidential Space. The parsing of
-- a JWS, its signature under the algorithms that jws.go allows, JSON and SHA-256 come from outside.
-- Times are seconds, as natural numbers.
pub mod Sound
use dispatcher.Prelude.{
  ℕ, Bool, true, false, not, ◌||◌, ◌&&◌, List, [], ◌∷◌, Option, none, some, ltb, leb, ◌-◌, ◌==◌,
  String, if◌then◌else◌, length, is_empty, map, codes, codes_eq, Result, ok, ◌>>=◌, ◌>>◌, check,
  require,
}
use dispatcher.Types.{Time}
use dispatcher.Attest.Bytes.{Bytes, Text, hex, fold_eq}
use dispatcher.Attest.Policy.{contains_fold, measurement_allowed}
use dispatcher.Attest.Keys.{PublicKey, KeySet, key_named}

pub record CsToken : Type 0 where
  pub iss : Text
  pub aud : List Text
  pub exp : Time
  pub nbf : Time
  pub eat_nonce : List Text
  pub hw_model : Text
  pub sw_name : Text
  pub dbg_stat : Text
  pub image_digest : Text

pub record CsPolicy : Type 0 where
  pub nonce : Bytes
  pub image_digests : List Text
  pub channel_key : Bytes
  pub expected_type : Text
  pub expected_audience : Text

pub data CsError : Type 0 where
  jws_unparsed not_one_signature unknown_key signature_invalid token_unparsed : CsError
  wrong_issuer wrong_audience expired not_yet_valid : CsError
  nonce_length nonce_missing key_uncommitted : CsError
  wrong_software unknown_platform debug_enabled wrong_type digest_not_allowed : CsError
  min_tcb_unenforceable : CsError

-- Go-jose and package json.
pub record Jose : Type 0 where
  -- The names of the keys of the signatures.
  pub parse_signed : Text → Option (List Text)
  -- jws.Verify.
  pub verified_payload : Text → PublicKey → Option Bytes
  pub parse_token : Bytes → Option CsToken
  pub sha256 : Bytes → Bytes

abbrev pub cs_issuer : Text
cs_issuer = codes "https://confidentialcomputing.googleapis.com"

abbrev pub cs_token_audience : Text
cs_token_audience = codes "dispatcher"

upper_code : ℕ → ℕ
upper_code c = if leb b'a' c && leb c b'z' then c - 32 else c

starts_with : Text → Text → Bool
starts_with [] cs = true
starts_with (p ∷ ps) [] = false
starts_with (p ∷ ps) (c ∷ cs) = p == c && starts_with ps cs

-- strings.Contains.
unfoldable pub contains : Text → Text → Bool
unfolding starts_with
contains part [] = is_empty part
contains part (c ∷ cs) = starts_with part (c ∷ cs) || contains part cs

-- csTEEType.
unfoldable pub cs_tee_type : Text → Text
unfolding contains upper_code
cs_tee_type hwmodel =
    let up = map upper_code hwmodel in
    if contains (codes "TDX") up
    then codes "tdx"
    else if contains (codes "SNP") up
    then codes "sev-snp"
    else if contains (codes "SEV") up
    then codes "sev"
    else []

-- The requested type, if there is one.
unfoldable pub is_requested_type : Text → Text → Bool
unfolding fold_eq
is_requested_type expected tee_type =
    is_empty expected || (fold_eq expected (codes "any") || fold_eq expected tee_type)

module _ (jose : Jose) where
  open jose use {parse_signed, verified_payload, parse_token, sha256}

  -- verifyJWS.
  unfoldable pub verify_jws : Text → KeySet → Result CsError Bytes
  unfolding key_named
  verify_jws token keys = do
    kids ← require (parse_signed token) jws_unparsed
    kid ← require (elim kids [ kid ∷ [] ↦ some kid | _ ↦ none ]) not_one_signature
    key ← require (key_named kid keys) unknown_key
    require (verified_payload token key) signature_invalid

  -- The claims of verifyCSToken that identify this run.
  unfoldable pub check_freshness : Time → CsToken → CsPolicy → Result CsError (Unit {0})
  unfolding contains_fold hex
  check_freshness now t p = do
    check (codes_eq t.iss cs_issuer) wrong_issuer
    check (is_empty p.expected_audience || contains_fold t.aud p.expected_audience) wrong_audience
    check (not (t.exp == 0 || leb t.exp now)) expired
    check (not (not (t.nbf == 0) && ltb now t.nbf)) not_yet_valid
    check (length p.nonce == 32) nonce_length
    check (contains_fold t.eat_nonce (hex p.nonce)) nonce_missing
    check (is_empty p.channel_key || contains_fold t.eat_nonce (hex (sha256 p.channel_key)))
        key_uncommitted

  -- The claims that identify the platform and the workload.
  unfoldable pub check_platform : CsToken → CsPolicy → Result CsError (Text × Text)
  unfolding cs_tee_type is_requested_type measurement_allowed fold_eq
  check_platform t p = do
    check (fold_eq t.sw_name (codes "CONFIDENTIAL_SPACE")) wrong_software
    check (not (is_empty (cs_tee_type t.hw_model))) unknown_platform
    check (fold_eq t.dbg_stat (codes "disabled-since-boot")) debug_enabled
    check (is_requested_type p.expected_type (cs_tee_type t.hw_model)) wrong_type
    check (measurement_allowed t.image_digest p.image_digests) digest_not_allowed
    ok (t.image_digest, cs_tee_type t.hw_model)

  -- verifyCSToken.
  unfoldable pub verify_cs_token : Time → Text → KeySet → CsPolicy → Result CsError (Text × Text)
  unfolding verify_jws check_freshness check_platform
  verify_cs_token now token keys p = do
    payload ← verify_jws token keys
    t ← require (parse_token payload) token_unparsed
    check_freshness now t p
    check_platform t p
