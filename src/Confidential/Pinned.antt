-- ===== src/Confidential/Pinned.antt =====
-- The registry of the pins as a map.
use dispatcher.Prelude.{true, [], ◌∷◌, some, ◌≡◌, inl, inr, refl, Bool-cases}
use dispatcher.Types.{eq_by}
use dispatcher.Confidential.{
  Target, Pin, Registry, Target-discrete, get, set, gcp, aws_nitro, azure_snp,
}

eq_by-same : (t : Target) → eq_by Target-discrete t t ≡ true
unfolding Target-discrete
eq_by-same gcp = refl
eq_by-same aws_nitro = refl
eq_by-same azure_snp = refl

-- A pin that was set is found.
pub get-set_same : (t : Target) (p : Pin) (reg : Registry) → get t (set t p reg) ≡ some p
unfolding get set
get-set_same t p [] = rw (eq_by-same t) refl
get-set_same t p ((u, q) ∷ reg) = elim (Bool-cases (eq_by Target-discrete u t)) [
  | inl y ↦ rw (y, get, eq_by-same t) refl
  | inr n ↦ rw (n, get, n) (get-set_same t p reg)
]
