-- ===== src/Attest/Matrix/PolicyBits.antt =====
-- The bits of the policy of a report, in its bytes.
use dispatcher.Prelude.{
  ℕ, ◌+◌, ◌/◌, ◌%◌, ◌^◌, ◌<◌, zero, suc, List, [], ◌∷◌, some, ◌≡◌, refl, sym, ap, ◌∙◌, arith, All,
  drop, take, get_elem?, ◌==◌, ltb, length, Bool-cases, inl, inr, some_injective,
}
use dispatcher.Attest.Bytes.{Bytes, little_endian}
use dispatcher.Attest.Snp.{
  SnpReport, report_len, parse_snp_report, le_uint64, debug_enabled, migration_enabled,
}

byte_bits :
    (bs : Bytes) (v : ℕ)
    → All (λ b. b < 256) bs
    → get_elem? bs 2 ≡ some v
    → (little_endian (take 8 bs) / 2 ^ 19 % 2 ≡ v / 8 % 2)
      × (little_endian (take 8 bs) / 2 ^ 18 % 2 ≡ v / 4 % 2)
unfolding little_endian
byte_bits [] v h e = cc
byte_bits (a ∷ []) v h e = cc
byte_bits (a ∷ b ∷ []) v h e = cc
byte_bits (a ∷ b ∷ c ∷ bs) v h e = ground arith

All-drop : (P : ℕ → Type 0) (n : ℕ) (xs : List ℕ) → All P xs → All P (drop n xs)
All-drop P zero xs h = h
All-drop P (suc n) [] h = tt
All-drop P (suc n) (x ∷ xs) h = All-drop P n xs h.1

get_elem?-drop : (n i : ℕ) (xs : List ℕ) → get_elem? (drop n xs) i ≡ get_elem? xs (n + i)
get_elem?-drop zero i xs = let e : i ≡ 0 + i = omega arith in ap (get_elem? xs) e
get_elem?-drop (suc n) i [] = refl
get_elem?-drop (suc n) i (x ∷ xs) =
    let e : suc (n + i) ≡ suc n + i = omega arith in
    get_elem?-drop n i xs ∙ ap (get_elem? (x ∷ xs)) e

-- DEBUG is bit 3 and MIGRATE_MA is bit 2 of byte 10 of a report.
pub policy_bits :
    (b : Bytes) (rep : SnpReport) (v : ℕ)
    → All (λ x. x < 256) b
    → parse_snp_report b ≡ some rep
    → get_elem? b 10 ≡ some v
    → (debug_enabled rep.policy ≡ (v / 8 % 2 == 1))
      × (migration_enabled rep.policy ≡ (v / 4 % 2 == 1))
unfolding parse_snp_report le_uint64 debug_enabled migration_enabled
policy_bits b rep v h p e =
    let bits = byte_bits (drop 8 b) v (All-drop _ 8 b h) (get_elem?-drop 8 2 b ∙ e) in
    elim (Bool-cases (ltb (length b) report_len)) [
      | inl y ↦ absurd (ground (arith, y, p))
      | inr n ↦
          let field = ap (λ (r : SnpReport). r.policy) (sym (some_injective (rw n at p))) in
          (
            ap (λ m. m == 1) (ap (λ (x : ℕ). x / 2 ^ 19 % 2) field ∙ bits.0),
            ap (λ m. m == 1) (ap (λ (x : ℕ). x / 2 ^ 18 % 2) field ∙ bits.1),
          )
    ]
