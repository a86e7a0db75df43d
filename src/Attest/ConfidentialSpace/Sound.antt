-- ===== src/Attest/ConfidentialSpace/Sound.antt =====
-- What a token that passed the checks is known to say.
use dispatcher.Prelude.{
  ℕ, ◌≤◌, ◌<◌, Bool, true, ◌||◌, List, [], ◌∷◌, some, ==_iff, ◌≡◌, ◌≢◌, refl, sym, ap, arith,
  length, is_empty, Any, codes, codes_eq→eq, ok, >>=_ok, check-ok, check-true, require-ok,
  require-some, ok_injective, not_empty_ok,
}
use dispatcher.Types.{Time}
use dispatcher.Attest.Bytes.{Bytes, Text, hex, fold_eq}
use dispatcher.Attest.Keys.{PublicKey, KeySet, key_named}
use dispatcher.Attest.Policy.{contains_fold, measurement_allowed}
use dispatcher.Attest.ConfidentialSpace.{
  CsToken, CsPolicy, Jose, cs_issuer, verify_jws, check_freshness, check_platform, verify_cs_token,
  cs_tee_type, is_requested_type,
}

pub contains_fold→Any :
    (hay : List Text) (needle : Text)
    → contains_fold hay needle ≡ true
    → Any (λ h. fold_eq h needle ≡ true) hay
unfolding contains_fold
contains_fold→Any [] needle h = cc
contains_fold→Any (x ∷ hay) needle h = ground (arith, contains_fold→Any hay needle)

or_empty : (xs : List ℕ) (b : Bool) → (is_empty xs || b) ≡ true → xs ≢ [] → b ≡ true
or_empty [] b h ne = absurd (ne refl)
or_empty (x ∷ xs) b h ne = h

module _ (jose : Jose) where
  open jose use {verified_payload, parse_token, sha256}

  -- A pinned key signed the token, and these are its claims.
  pub record Carries (keys : KeySet) (token : Text) (t : CsToken) : Type 0 where
    pub kid : Text
    pub key : PublicKey
    pub payload : Bytes
    pub pinned : key_named kid keys ≡ some key
    pub signed : verified_payload token key ≡ some payload
    pub parsed : parse_token payload ≡ some t

  -- The claims say that a Confidential Space without debugging runs an allowed image for this run.
  pub record IsForRun (now : Time) (p : CsPolicy) (t : CsToken) : Type 0 where
    pub issuer : t.iss ≡ cs_issuer
    pub audience : p.expected_audience ≢ [] → Any (λ a. fold_eq a p.expected_audience ≡ true) t.aud
    pub unexpired : now < t.exp
    pub begun : t.nbf ≤ now
    pub nonce_length : length p.nonce ≡ 32
    pub fresh : Any (λ n. fold_eq n (hex p.nonce) ≡ true) t.eat_nonce
    pub bound :
        p.channel_key ≢ [] → Any (λ n. fold_eq n (hex (sha256 p.channel_key)) ≡ true) t.eat_nonce
    pub debug_off : fold_eq t.dbg_stat (codes "disabled-since-boot") ≡ true
    pub software : fold_eq t.sw_name (codes "CONFIDENTIAL_SPACE") ≡ true
    pub known_platform : cs_tee_type t.hw_model ≢ []
    pub requested : is_requested_type p.expected_type (cs_tee_type t.hw_model) ≡ true
    pub allowed : Any (λ d. fold_eq d t.image_digest ≡ true) p.image_digests

  verify_jws-ok :
      (token : Text) (keys : KeySet) {payload : Bytes}
      → verify_jws jose token keys ≡ ok payload
      → (kid : Text) × ((key : PublicKey) × (key_named kid keys ≡ some key)
          × (verified_payload token key ≡ some payload))
  unfolding verify_jws
  verify_jws-ok token keys h =
      let k = require-ok _ _ _ h in
      let i = require-ok _ _ _ k.2 in
      let key = require-ok _ _ _ i.2 in (i.0, (key.0, key.1, require-some _ _ key.2))

  -- A token that verifyCSToken accepts is signed by a pinned key, and its claims are those of this
  -- run; the digest and the type that it returns are the claimed ones.
  pub verify_cs_token-IsForRun :
      (now : Time) (token : Text) (keys : KeySet) (p : CsPolicy) {digest tee_type : Text}
      → verify_cs_token jose now token keys p ≡ ok (digest, tee_type)
      → (t : CsToken) × Carries keys token t
        × IsForRun now p t
        × (digest ≡ t.image_digest)
        × (tee_type ≡ cs_tee_type t.hw_model)
  unfolding verify_cs_token check_freshness check_platform measurement_allowed
  verify_cs_token-IsForRun now token keys p h =
      let j = >>=_ok _ _ h in
      let signer = verify_jws-ok token keys j.1 in
      let t = require-ok _ _ _ j.2 in
      let f = >>=_ok _ _ t.2 in
      let iss = check-ok _ _ _ f.1 in
      let aud = check-ok _ _ _ iss.1 in
      let exp = check-ok _ _ _ aud.1 in
      let nbf = check-ok _ _ _ exp.1 in
      let len = check-ok _ _ _ nbf.1 in
      let non = check-ok _ _ _ len.1 in
      let sw = check-ok _ _ _ f.2 in
      let hw = check-ok _ _ _ sw.1 in
      let dbg = check-ok _ _ _ hw.1 in
      let typ = check-ok _ _ _ dbg.1 in
      let dig = check-ok _ _ _ typ.1 in
      let out = ok_injective dig.1 in
      (
        t.0,
        record {
          kid = signer.0;
          key = signer.1.0;
          payload = j.0;
          pinned = signer.1.1;
          signed = signer.1.2;
          parsed = t.1;
        },
        record {
          issuer = codes_eq→eq _ _ iss.0;
          audience = λ ne. contains_fold→Any _ _ (or_empty _ _ aud.0 ne);
          unexpired = ground (arith, exp.0);
          begun = ground (arith, nbf.0);
          nonce_length = (==_iff _ _).0 len.0;
          fresh = contains_fold→Any _ _ non.0;
          bound = λ ne. contains_fold→Any _ _ (or_empty _ _ (check-true _ _ non.1) ne);
          debug_off = dbg.0;
          software = sw.0;
          known_platform = not_empty_ok _ hw.0;
          requested = typ.0;
          allowed = contains_fold→Any _ _ dig.0;
        },
        sym (ap (λ (q : Text × Text). q.0) out),
        sym (ap (λ (q : Text × Text). q.1) out),
      )
