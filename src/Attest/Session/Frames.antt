-- ===== src/Attest/Session/Frames.antt =====
-- A framed message is read back whole.
use dispatcher.Prelude.{
  ℕ, ◌+◌, ◌*◌, ◌/◌, ◌%◌, ◌^◌, ◌≤◌, ◌<◌, [], ◌∷◌, ◌++◌, ◌≡◌, refl, ap, arith, take, drop, length,
  length-append, ok,
}
use dispatcher.Attest.Bytes.{Bytes}
use dispatcher.Attest.Session.{put_uint32, frame, read_msg}

take-append : (xs ys : Bytes) → take (length xs) (xs ++ ys) ≡ xs
take-append [] ys = refl
take-append (x ∷ xs) ys = ap (λ zs. x ∷ zs) (take-append xs ys)

drop-append : (xs ys : Bytes) → drop (length xs) (xs ++ ys) ≡ ys
drop-append [] ys = refl
drop-append (x ∷ xs) ys = drop-append xs ys

uint32_digits :
    (n : ℕ)
    → n < 2 ^ 32
    → ((n / 2 ^ 24 % 256 * 256 + n / 2 ^ 16 % 256) * 256 + n / 2 ^ 8 % 256) * 256 + n % 256 ≡ n
uint32_digits n h = omega arith

-- A message of at most `max` bytes, and of less than 4 GiB, is read back with what follows it.
pub read_msg-frame :
    (max : ℕ) (b rest : Bytes)
    → length b ≤ max
    → length b < 2 ^ 32
    → read_msg max (frame b ++ rest) ≡ ok (b, rest)
unfolding read_msg frame put_uint32
read_msg-frame max b rest h small =
    rw (uint32_digits (length b) small)
      (ground (arith, h, length-append b rest, take-append b rest, drop-append b rest))

pub take_all : (xs : Bytes) → take (length xs) xs ≡ xs
take_all [] = refl
take_all (x ∷ xs) = ap (λ zs. x ∷ zs) (take_all xs)
