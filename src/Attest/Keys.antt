-- ===== src/Attest/Keys.antt =====
-- The keys of internal/attest/confidential_space_keys.go: an RSA key from its JWK numbers, and a set
-- of keys by their names. JSON, base64 and certificates come from outside.
use dispatcher.Prelude.{
  ℕ, ◌%◌, ◌^◌, Bool, not, ◌||◌, ◌&&◌, List, [], ◌∷◌, Option, none, some, ltb, leb, ◌==◌,
  if◌then◌else◌, length, is_empty, codes_eq,
}
use dispatcher.Attest.Bytes.{Bytes, Text, set_bytes}

pub record RsaKey : Type 0 where
  pub modulus : ℕ
  pub exponent : ℕ

-- The moduli of at least 2048 and of at most 16384 bits.
unfoldable pub is_modulus_size : ℕ → Bool
is_modulus_size n = leb (2 ^ 2047) n && ltb n (2 ^ 16384)

-- rsaPublicKeyFromJWK.
unfoldable pub rsa_public_key_from_jwk : Bytes → Bytes → Option RsaKey
unfolding set_bytes is_modulus_size
rsa_public_key_from_jwk nb eb =
    let e = set_bytes 0 eb in
    let n = set_bytes 0 nb in
    if is_empty eb || ltb 4 (length eb)
    then none
    else if ltb e 3 || e % 2 == 0
    then none
    else if n % 2 == 0
    then none
    else if not (is_modulus_size n)
    then none
    else some (record { modulus = n; exponent = e })

-- A key of a JWK set; `kty` is read nowhere.
pub record Jwk : Type 0 where
  pub kid : Text
  pub n : Text
  pub e : Text
  pub x5c : List Text

-- What verifies a signature: an RSA key, or the key of a certificate.
pub data PublicKey : Type 0 where
  rsa : RsaKey → PublicKey
  certified : Bytes → PublicKey

abbrev pub KeySet : Type 0
KeySet = List (Text × PublicKey)

-- `keys[kid]`: the last one that was set.
unfoldable pub key_named : Text → KeySet → Option PublicKey
key_named kid [] = none
key_named kid ((k, key) ∷ keys) = elim (key_named kid keys) [
  | some later ↦ some later
  | none ↦ if codes_eq k kid then some key else none
]

module _ (raw_url_decode std_decode : Text → Option Bytes) (has_certificate : Bytes → Bool) where
  unfoldable pub rsa_of_jwk : Jwk → Option PublicKey
  unfolding rsa_public_key_from_jwk
  rsa_of_jwk k = elim (raw_url_decode k.n) [
    | none ↦ none
    | some nb ↦ elim (raw_url_decode k.e) [
      | none ↦ none
      | some eb ↦ elim (rsa_public_key_from_jwk nb eb) [
        | none ↦ none
        | some pub_key ↦ some (rsa pub_key)
      ]
    ]
  ]

  unfoldable pub key_of_certificate : List Text → Option PublicKey
  key_of_certificate [] = none
  key_of_certificate (c ∷ cs) = elim (std_decode c) [
    | none ↦ none
    | some der ↦ if has_certificate der then some (certified der) else none
  ]

  -- The loop of parseJWKS; `none` is its first error.
  unfoldable pub jwk_keys : List Jwk → Option KeySet
  unfolding rsa_of_jwk key_of_certificate
  jwk_keys [] = some []
  jwk_keys (k ∷ ks) =
      let rest = jwk_keys ks in
      let key =
        if not (is_empty k.n) && not (is_empty k.e)
        then rsa_of_jwk k
        else key_of_certificate k.x5c in
      if not (is_empty k.n) && not (is_empty k.e) || not (is_empty k.x5c)
      then if is_empty k.kid then none else elim key [
        | none ↦ none
        | some v ↦ elim rest [ none ↦ none | some vs ↦ some ((k.kid, v) ∷ vs) ]
      ]
      else rest

  -- parseJWKS.
  unfoldable pub parse_jwks : (Bytes → Option (List Jwk)) → Bytes → Option KeySet
  unfolding jwk_keys
  parse_jwks decode raw = elim (decode raw) [
    | none ↦ none
    | some ks ↦ elim (jwk_keys ks) [ none ↦ none | some [] ↦ none | some (k ∷ vs) ↦ some (k ∷ vs) ]
  ]
