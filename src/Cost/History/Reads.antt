-- ===== src/Cost/History/Reads.antt =====
-- What the store keeps, and what is read off it.
use dispatcher.Prelude.{
  ℕ, ◌+◌, ◌-◌, ◌≤◌, String, Bool, true, false, ◌&&◌, List, [], ◌∷◌, ◌++◌, Option, ◌≡◌, ◌≢◌, refl,
  ◌↔◌, ◌⊎◌, inl, inr, arith, Any, drop, filter, map, length, zero, suc, eq_iff, if◌then◌else◌, ltb,
  leb, subst, sym, ◌==◌, Any-map, All, Splits, splits_nil, splits_left, splits_right, Bool-cases,
  Option-cases, List-cases,
}
use dispatcher.Cost.Median.{median, IsMedian, median-IsMedian}
use dispatcher.Cost.History.{
  RunHistory, max_entries, capped, recorded, record_run, is_similar, estimate_duration, is_of,
  tally, flakiness,
}

length-drop : {A : Type 0} (n : ℕ) (xs : List A) → length (drop n xs) ≡ length xs - n
length-drop zero xs = omega arith
length-drop (suc n) [] = omega arith
length-drop (suc n) (x ∷ xs) = omega (arith, length-drop n xs)

-- The last element.
abbrev pub EndsWith : {A : Type 0} → A → List A → Type 0
EndsWith x [] = ⊥
EndsWith x (y ∷ []) = y ≡ x
EndsWith x (y ∷ z ∷ ys) = EndsWith x (z ∷ ys)

EndsWith-append : {A : Type 0} (x : A) (xs : List A) → EndsWith x (xs ++ x ∷ [])
EndsWith-append x [] = refl
EndsWith-append x (y ∷ []) = refl
EndsWith-append x (y ∷ z ∷ ys) = EndsWith-append x (z ∷ ys)

EndsWith-drop :
    {A : Type 0} (n : ℕ) (x : A) (xs : List A)
    → EndsWith x xs
    → suc n ≤ length xs
    → EndsWith x (drop n xs)
EndsWith-drop zero x xs h l = h
EndsWith-drop (suc n) x [] h l = h
EndsWith-drop (suc n) x (y ∷ []) h l = absurd (omega arith)
EndsWith-drop (suc n) x (y ∷ z ∷ ys) h l = EndsWith-drop n x (z ∷ ys) h (omega arith)

ltb_iff : (a b : ℕ) → (ltb a b ≡ true) ↔ (suc a ≤ b)
ltb_iff a b = (λ h. ground arith, λ h. ground arith)

ltb_not : (a b : ℕ) → ltb a b ≡ false → b ≤ a
ltb_not a b h = ground arith

capped-IsCapped :
    (es : List RunHistory) (e : RunHistory)
    → EndsWith e es
    → (length (capped es) ≤ max_entries) × EndsWith e (capped es)
unfolding capped
capped-IsCapped es e h =
    let n = length es - max_entries in
    elim (Bool-cases (ltb max_entries (length es))) [
      | inl b ↦
          let l = (ltb_iff max_entries (length es)).0 b in
          rw b (omega (arith, length-drop n es), EndsWith-drop n e es h (omega arith))
      | inr b ↦ let l = ltb_not max_entries (length es) b in rw b (omega arith, h)
    ]

-- On a store of at most 500 entries Record leaves at most 500. Where it succeeds the new entry is the
-- last, and where it fails the store is unchanged.
pub record_run-IsCapped :
    (size : RunHistory → Option ℕ) (appended : Bool) (es : List RunHistory) (e : RunHistory)
    → length es ≤ max_entries
    → (length (record_run size appended es e).0 ≤ max_entries)
      × ((record_run size appended es e).1 ≡ recorded
          → EndsWith e (record_run size appended es e).0)
      × ((record_run size appended es e).1 ≢ recorded → (record_run size appended es e).0 ≡ es)
unfolding record_run
record_run-IsCapped size appended es e h =
    let c = capped-IsCapped (es ++ e ∷ []) e (EndsWith-append e es) in
    elim (Option-cases (size e)) [
      | inl n ↦ ground (arith, n, h)
      | inr (k, n) ↦ ground (arith, n, h, c)
    ]

map_nil_iff : (es : List RunHistory) → (length (map (λ e. e.actual_duration) es) ≡ 0) ↔ (es ≡ [])
map_nil_iff [] = (λ h. refl, λ h. refl)
map_nil_iff (e ∷ es) = (λ h. absurd (omega arith), λ h. cc)

median-some : (ds : List ℕ) → ds ≢ [] → (if length ds == 0 then 0 else median ds) ≡ median ds
median-some [] ne = absurd (ne refl)
median-some (d ∷ ds) ne = ground arith

-- A successful run of this kind on this target.
abbrev pub IsSimilar : String → String → RunHistory → Type 0
IsSimilar target kind e = (e.success ≡ true) × (e.target_id ≡ target) × (e.workload_kind ≡ kind)

is_similar_iff :
    (target kind : String) (e : RunHistory)
    → (is_similar target kind e ≡ true) ↔ IsSimilar target kind e
unfolding is_similar
is_similar_iff target kind e =
    let t = eq_iff e.target_id target in
    let k = eq_iff e.workload_kind kind in
    (λ h. ground (arith, t, k, h), λ h. ground (arith, t, k, h))

-- The similar runs of the store, in their order.
abbrev pub AreSimilar : String → String → List RunHistory → List RunHistory → Type 0
AreSimilar target kind es rs =
    All (IsSimilar target kind) rs
    × ((others : List RunHistory) × All (λ e. ¬ IsSimilar target kind e) others
        × Splits rs others es)

filter-AreSimilar :
    (target kind : String) (es : List RunHistory)
    → AreSimilar target kind es (filter (is_similar target kind) es)
filter-AreSimilar target kind [] = (tt, ([], tt, splits_nil))
filter-AreSimilar target kind (e ∷ es) =
    let ih = filter-AreSimilar target kind es in
    elim (Bool-cases (is_similar target kind e)) [
      | inl y ↦
          rw y (((is_similar_iff target kind e).0 y, ih.0), (ih.1.0, ih.1.1, splits_left ih.1.2))
      | inr n ↦ rw n (
        ih.0,
        (
          e ∷ ih.1.0,
          (λ s. let y = (is_similar_iff target kind e).1 s in cc (n, y), ih.1.1),
          splits_right ih.1.2,
        ),
      )
    ]

-- EstimateDuration is 0 where no successful run of this kind on this target is stored, and otherwise
-- the element in the middle of the durations of all such runs in order.
pub estimate_duration-IsMedian :
    (target kind : String) (es : List RunHistory)
    → (rs : List RunHistory) × AreSimilar target kind es rs
      × (((rs ≡ []) × (estimate_duration target kind es ≡ 0))
          ⊎ IsMedian (map (λ e. e.actual_duration) rs) (estimate_duration target kind es))
unfolding estimate_duration
estimate_duration-IsMedian target kind es =
    let rs = filter (is_similar target kind) es in
    (
      rs,
      filter-AreSimilar target kind es,
      elim (List-cases rs) [
        | inl n ↦ inl (n, rw n refl)
        | inr (e, (rest, n)) ↦
            let ds = map (λ e. e.actual_duration) (e ∷ rest) in
            let ne : ds ≢ [] = (λ q. cc) in
            inr (rw n (subst (IsMedian ds) (sym (median-some ds ne)) (median-IsMedian ds ne)))
      ],
    )

-- The tally counts, and finds a success and a failure exactly if there is one.
tally_iff :
    (es : List RunHistory)
    → ((tally es).0 ≡ (tally es).1 + (tally es).2)
      × ((1 ≤ (tally es).1) ↔ Any (λ e. e.success ≡ true) es)
      × ((1 ≤ (tally es).2) ↔ Any (λ e. e.success ≡ false) es)
unfolding tally
tally_iff [] =
    (refl, (λ h. absurd (omega arith), λ h. absurd h), (λ h. absurd (omega arith), λ h. absurd h))
tally_iff (e ∷ es) =
    let ih = tally_iff es in
    (
      ground (arith, ih),
      (λ h. ground (arith, ih), λ h. ground (arith, ih)),
      (λ h. ground (arith, ih), λ h. ground (arith, ih)),
    )

Any-filter_iff :
    {A : Type 0} (p : A → Bool) (P : A → Type 0) (xs : List A)
    → Any P (filter p xs) ↔ Any (λ x. (p x ≡ true) × P x) xs
Any-filter_iff p P [] = (λ h. absurd h, λ h. absurd h)
Any-filter_iff p P (x ∷ xs) =
    let ih = Any-filter_iff p P xs in (λ h. ground (arith, ih), λ h. ground (arith, ih))

flags :
    (t : ℕ × ℕ × ℕ)
    → t.0 ≡ t.1 + t.2
    → ((leb 2 t.0 && ltb 0 t.1 && ltb 0 t.2) ≡ true) ↔ ((1 ≤ t.1) × (1 ≤ t.2))
flags t e = (λ h. ground arith, λ h. ground arith)

is_of_iff :
    (name target : String) (e : RunHistory)
    → (is_of name target e ≡ true) ↔ ((e.workload_name ≡ name) × (e.target_id ≡ target))
unfolding is_of
is_of_iff name target e =
    let n = eq_iff e.workload_name name in
    let t = eq_iff e.target_id target in (λ h. ground (arith, n, t), λ h. ground (arith, n, t))

-- A run of this workload on this target that ended so.
abbrev pub Ran : String → String → Bool → RunHistory → Type 0
Ran name target b e = ((e.workload_name ≡ name) × (e.target_id ≡ target)) × (e.success ≡ b)

Ran-iff :
    (name target : String) (b : Bool) (es : List RunHistory)
    → Any (λ e. e.success ≡ b) (filter (is_of name target) es) ↔ Any (Ran name target b) es
Ran-iff name target b es =
    let f = Any-filter_iff (is_of name target) (λ e. e.success ≡ b) es in
    (
      λ h. Any-map _ (Ran name target b) es (λ e k. ((is_of_iff name target e).0 k.0, k.1)) (f.0 h),
      λ h. f.1 (Any-map (Ran name target b) _ es (λ e k. ((is_of_iff name target e).1 k.0, k.1)) h),
    )

-- A workload is flaky on a target exactly if a stored run of it there succeeded and another failed.
pub flakiness_iff :
    (name target : String) (es : List RunHistory)
    → ((flakiness name target es).flaky ≡ true)
      ↔ (Any (Ran name target true) es × Any (Ran name target false) es)
unfolding flakiness
flakiness_iff name target es =
    let t = tally_iff (filter (is_of name target) es) in
    let good = Ran-iff name target true es in
    let bad = Ran-iff name target false es in
    (
      λ h.
          let both = flags (tally (filter (is_of name target) es)) t.0 in
          let k = both.0 h in (good.0 (t.1.0 k.0), bad.0 (t.2.0 k.1)),
      λ h.
          let both = flags (tally (filter (is_of name target) es)) t.0 in
          both.1 (t.1.1 (good.1 h.0), t.2.1 (bad.1 h.1)),
    )
