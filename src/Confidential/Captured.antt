-- ===== src/Confidential/Captured.antt =====
-- What a captured pin is, and which pins are reported.
use dispatcher.Prelude.{
  ℕ, true, false, [], ◌∷◌, ◌++◌, none, some, ◌≡◌, refl, arith, length, Option-cases, Bool-cases, ap,
  sym, ◌∙◌, subst, inl, inr, some_injective, All, ◌≢◌,
}
use dispatcher.Attest.Bytes.{Text}
use dispatcher.Confidential.{
  Pin, cut_prefix, digest_prefix, is_hex_len, all_hex, is_image_digest, digest_of, capture_gcp,
}

cut_prefix-++ : (ps s rest : Text) → cut_prefix ps s ≡ some rest → s ≡ ps ++ rest
unfolding cut_prefix
cut_prefix-++ [] s rest h = some_injective h
cut_prefix-++ (p ∷ ps) [] rest h = absurd cc
cut_prefix-++ (p ∷ ps) (c ∷ cs) rest h = ground (arith, cut_prefix-++ ps cs rest)

-- A digest: its prefix and 64 lowercase hex digits.
abbrev pub IsDigest : Text → Type 0
IsDigest digest =
    (hex_part : Text) × (digest ≡ digest_prefix ++ hex_part)
    × (length hex_part ≡ 64)
    × (all_hex hex_part ≡ true)

is_image_digest-IsDigest : (digest : Text) → is_image_digest digest ≡ true → IsDigest digest
unfolding is_image_digest is_hex_len
is_image_digest-IsDigest digest h = elim (Option-cases (cut_prefix digest_prefix digest)) [
  | inl n ↦ absurd (ground (arith, n, h))
  | inr (hex_part, y) ↦ (
    hex_part,
    cut_prefix-++ digest_prefix digest hex_part y,
    ground (arith, y, h),
    ground (arith, y, h),
  )
]

cut_prefix-own : (ps rest : Text) → cut_prefix ps (ps ++ rest) ≡ some rest
unfolding cut_prefix
cut_prefix-own [] rest = refl
cut_prefix-own (p ∷ ps) rest = ground (arith, cut_prefix-own ps rest)

abbrev pub marker : Text
marker = b'@' ∷ digest_prefix

digest_of-split :
    (ref digest : Text)
    → digest_of ref ≡ some digest
    → (before : Text) × (ref ≡ before ++ b'@' ∷ digest)
unfolding digest_of
digest_of-split [] digest h = absurd cc
digest_of-split (c ∷ cs) digest h = elim (Option-cases (cut_prefix marker (c ∷ cs))) [
  | inl n ↦
      let (before, q) = digest_of-split cs digest (ground (arith, n, h)) in
      (c ∷ before, ap (λ (xs : Text). c ∷ xs) q)
  | inr (rest, y) ↦
      let at = cut_prefix-++ marker (c ∷ cs) rest y in
      let same : cs ≡ digest = ground (arith, y, h) in ([], cc (at, same))
]

abbrev pub pin_of : Text → Text → Pin
pin_of ref digest = record { image = ref; measurement = digest; captured_at = []; inputs_hash = [] }

capture_gcp-accepted :
    (ref digest : Text)
    → digest_of ref ≡ some digest
    → is_image_digest digest ≡ true
    → capture_gcp ref ≡ some (pin_of ref digest)
unfolding capture_gcp
capture_gcp-accepted ref digest found valid = rw (found, valid, capture_gcp) refl

capture_gcp-refused :
    (ref digest : Text)
    → digest_of ref ≡ some digest
    → is_image_digest digest ≡ false
    → capture_gcp ref ≡ none
unfolding capture_gcp
capture_gcp-refused ref digest found invalid = rw (found, invalid, capture_gcp) refl

capture_gcp-unnamed : (ref : Text) → digest_of ref ≡ none → capture_gcp ref ≡ none
unfolding capture_gcp
capture_gcp-unnamed ref n = rw (n, capture_gcp) refl

abbrev pub IsPinned : Text → Pin → Type 0
IsPinned ref pin =
    (before : Text) × (pin.image ≡ ref)
    × (ref ≡ before ++ b'@' ∷ pin.measurement)
    × IsDigest pin.measurement

capture_gcp-IsPinned : (ref : Text) (pin : Pin) → capture_gcp ref ≡ some pin → IsPinned ref pin
capture_gcp-IsPinned ref pin h = elim (Option-cases (digest_of ref)) [
  | inl n ↦ absurd (let e = capture_gcp-unnamed ref n in cc (e, h))
  | inr (digest, y) ↦ elim (Bool-cases (is_image_digest digest)) [
    | inr n ↦ absurd (let e = capture_gcp-refused ref digest y n in cc (e, h))
    | inl t ↦
        let (before, q) = digest_of-split ref digest y in
        subst (IsPinned ref) (some_injective (sym (capture_gcp-accepted ref digest y t) ∙ h))
          (before, refl, q, is_image_digest-IsDigest digest t)
  ]
]

cut_prefix-other : (c : ℕ) (cs : Text) → c ≢ b'@' → cut_prefix marker (c ∷ cs) ≡ none
unfolding cut_prefix
cut_prefix-other c cs n = ground (arith, n)

digest_of-later :
    (c : ℕ) (cs : Text) → cut_prefix marker (c ∷ cs) ≡ none → digest_of (c ∷ cs) ≡ digest_of cs
unfolding digest_of
digest_of-later c cs n = rw (n, digest_of) refl

digest_of-named :
    (before hex_part : Text)
    → All (λ c. c ≢ b'@') before
    → digest_of (before ++ marker ++ hex_part) ≡ some (digest_prefix ++ hex_part)
unfolding digest_of cut_prefix
digest_of-named [] hex_part a = refl
digest_of-named (c ∷ before) hex_part a =
    let rest = before ++ marker ++ hex_part in
    digest_of-later c rest (cut_prefix-other c rest a.0) ∙ digest_of-named before hex_part a.1

is_image_digest-named :
    (hex_part : Text)
    → length hex_part ≡ 64
    → all_hex hex_part ≡ true
    → is_image_digest (digest_prefix ++ hex_part) ≡ true
unfolding is_image_digest is_hex_len cut_prefix
is_image_digest-named hex_part n digits = ground (arith, n, digits)

-- CaptureGCP keeps the digest of a digest-pinned image, whose name has no other `@`, as its measurement,
-- and whatever it keeps is a digest, of 64 lowercase hex digits, at the end of the image's name.
pub capture_gcp-IsFaithful :
    (before hex_part : Text)
    → All (λ c. c ≢ b'@') before
    → length hex_part ≡ 64
    → all_hex hex_part ≡ true
    → (capture_gcp (before ++ marker ++ hex_part)
        ≡ some (pin_of (before ++ marker ++ hex_part) (digest_prefix ++ hex_part)))
      × ((ref : Text) (pin : Pin) → capture_gcp ref ≡ some pin → IsPinned ref pin)
capture_gcp-IsFaithful before hex_part a n digits = (
  capture_gcp-accepted _ _ (digest_of-named before hex_part a)
      (is_image_digest-named hex_part n digits),
  capture_gcp-IsPinned,
)
