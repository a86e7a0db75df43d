-- ===== src/Prelude/Text.antt =====
-- Text as code points, with the letter case of ASCII: what the program uses of package strings.
use Prim.Native.Nat.{ℕ, ◌+◌}
use Prim.Native.Char.{code}
use Prim.Native.String.{String}
use mathlib.Core.Bool.{Bool, true, false, ◌&&◌, ◌||◌}
use mathlib.Core.Path.{◌≡◌, refl}
use mathlib.Core.List.{List, [], ◌∷◌, map, reverse}
use dispatcher.Prelude.Tests.{leb, ◌==◌, if◌then◌else◌}
use dispatcher.Prelude.Lists.{All, All-reverse}
use native.Mathlib.Omega.{arith}

abbrev pub codes : String → List ℕ
codes String.[] = []
codes (String.◌∷◌ c s) = code c ∷ codes s

-- Equality of two texts given as code points.
abbrev pub codes_eq : List ℕ → List ℕ → Bool
codes_eq [] [] = true
codes_eq [] (d ∷ ds) = false
codes_eq (c ∷ cs) [] = false
codes_eq (c ∷ cs) (d ∷ ds) = (c == d) && codes_eq cs ds

pub codes_eq→eq : (cs ds : List ℕ) → codes_eq cs ds ≡ true → cs ≡ ds
codes_eq→eq [] [] h = refl
codes_eq→eq [] (d ∷ ds) h = cc
codes_eq→eq (c ∷ cs) [] h = cc
codes_eq→eq (c ∷ cs) (d ∷ ds) h = ground (arith, codes_eq→eq cs ds)

pub codes_eq_refl : (cs : List ℕ) → codes_eq cs cs ≡ true
codes_eq_refl [] = refl
codes_eq_refl (c ∷ cs) = ground (arith, codes_eq_refl cs)

-- unicode.ToLower, on ASCII.
unfoldable pub lower_code : ℕ → ℕ
lower_code c = if leb b'A' c && leb c b'Z' then c + 32 else c

-- strings.ToLower.
unfoldable pub to_lower : List ℕ → List ℕ
unfolding lower_code
to_lower cs = map lower_code cs

-- strings.EqualFold, on ASCII.
unfoldable pub equal_fold : String → String → Bool
unfolding to_lower
equal_fold s t = codes_eq (to_lower (codes s)) (to_lower (codes t))

-- unicode.IsSpace, on ASCII.
unfoldable pub is_space : ℕ → Bool
is_space c = c == 32 || (leb 9 c && leb c 13)

unfoldable pub trim_left : List ℕ → List ℕ
unfolding is_space
trim_left [] = []
trim_left (c ∷ cs) = let rest = trim_left cs in if is_space c then rest else c ∷ cs

-- strings.TrimSpace.
unfoldable pub trim_space : List ℕ → List ℕ
unfolding trim_left
trim_space cs = reverse (trim_left (reverse (trim_left cs)))

trim_left-All : (P : ℕ → Type 0) (cs : List ℕ) → All P cs → All P (trim_left cs)
unfolding trim_left
trim_left-All P [] h = tt
trim_left-All P (c ∷ cs) h = ground (arith, trim_left-All P cs h.1)

-- Trimming keeps what holds of every character.
pub trim_space-All : (P : ℕ → Type 0) (cs : List ℕ) → All P cs → All P (trim_space cs)
unfolding trim_space
trim_space-All P cs h = All-reverse P _ (trim_left-All P _ (All-reverse P _ (trim_left-All P cs h)))
