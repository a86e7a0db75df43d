-- ===== src/Cost/History.antt =====
-- internal/cost/history.go: the store of past runs, in memory, and what is read off it. Costs are
-- natural numbers, so the clamp of SpendSince has nothing to do. The size of an entry as a line, with
-- its name already bounded, and whether the append succeeds, come from outside.
pub mod Reads
use dispatcher.Prelude.{
  ℕ, ◌+◌, ◌-◌, ◌*◌, ◌/◌, String, Bool, true, false, ◌&&◌, ◌||◌, not, List, [], ◌∷◌, ◌++◌, Option,
  none, some, ◌==◌, ltb, leb, if◌then◌else◌, str_eq, length, drop, filter, map, zero, suc,
}
use dispatcher.Types.{
  Time, Duration, hour, Usd, Confidence, high, medium, low, CostEstimate, TargetConfig,
  WorkloadSpec,
}
use dispatcher.Cost.Median.{median}

pub record RunHistory : Type 0 where
  pub run_id : String
  pub target_id : String
  pub workload_kind : String
  pub workload_name : String
  pub actual_duration : Duration
  pub estimated_cost : Usd
  pub actual_cost : Usd
  pub completed_at : Time
  pub success : Bool

abbrev pub max_entries : ℕ
max_entries = 500

-- The newest entries.
unfoldable pub capped : List RunHistory → List RunHistory
capped es = if ltb max_entries (length es) then drop (length es - max_entries) es else es

pub data RecordEnd : Type 0 where
  recorded marshal_failed too_long append_failed : RecordEnd

-- HistoryStore.Record.
unfoldable pub record_run :
    (RunHistory → Option ℕ) → Bool → List RunHistory → RunHistory → List RunHistory × RecordEnd
unfolding capped
record_run size appended es e = elim (size e) [
  | none ↦ (es, marshal_failed)
  | some n ↦
      if ltb 4096 (n + 1)
      then (es, too_long)
      else if appended
      then (capped (es ++ e ∷ []), recorded)
      else (es, append_failed)
]

-- SpendSince.
unfoldable pub spend_since : String → Time → List RunHistory → Usd × ℕ
spend_since target since [] = (0, 0)
spend_since target since (e ∷ es) =
    let (total, runs) = spend_since target since es in
    if not (str_eq e.target_id target) || ltb e.completed_at since
    then (total, runs)
    else (e.actual_cost + total, runs + 1)

unfoldable pub is_similar : String → String → RunHistory → Bool
is_similar target kind e = e.success && (str_eq e.target_id target && str_eq e.workload_kind kind)

-- EstimateDuration.
unfoldable pub estimate_duration : String → String → List RunHistory → Duration
unfolding is_similar
estimate_duration target kind es =
    let durations = map (λ e. e.actual_duration) (filter (is_similar target kind) es) in
    if length durations == 0 then 0 else median durations

-- A fraction, as its numerator and denominator.
abbrev pub Fraction : Type 0
Fraction = ℕ × ℕ

unfoldable pub sum_of : List Fraction → Fraction
sum_of [] = (0, 1)
sum_of ((a, b) ∷ fs) = let (c, d) = sum_of fs in (a * d + c * b, b * d)

-- avg(fs) < percent / 100.
unfoldable pub avg_below : ℕ → List Fraction → Bool
unfolding sum_of
avg_below percent fs = let (a, b) = sum_of fs in ltb (a * 100) (percent * (b * length fs))

unfoldable pub is_priced : String → RunHistory → Bool
is_priced target e = not (not (str_eq e.target_id target) || not e.success || e.estimated_cost == 0)

-- |actual - estimated| / estimated.
unfoldable pub pct_err : RunHistory → Fraction
pct_err e =
    ((e.actual_cost - e.estimated_cost) + (e.estimated_cost - e.actual_cost), e.estimated_cost)

-- ConfidenceForTarget; `none` is the empty text.
unfoldable pub confidence_for_target : String → List RunHistory → Option Confidence
unfolding avg_below is_priced pct_err
confidence_for_target target es =
    let errors = map pct_err (filter (is_priced target) es) in
    if ltb (length errors) 3
    then none
    else if avg_below 15 errors
    then some high
    else if avg_below 40 errors
    then some medium
    else some low

pub record StabilityReport : Type 0 where
  pub runs : ℕ
  pub failures : ℕ
  pub flaky : Bool

unfoldable pub is_of : String → String → RunHistory → Bool
is_of name target e = not (not (str_eq e.workload_name name) || not (str_eq e.target_id target))

-- The loop of Flakiness: the runs, successes and failures.
unfoldable pub tally : List RunHistory → ℕ × ℕ × ℕ
tally [] = (0, 0, 0)
tally (e ∷ es) =
    let (runs, successes, failures) = tally es in
    if e.success then (runs + 1, successes + 1, failures) else (runs + 1, successes, failures + 1)

-- Flakiness.
unfoldable pub flakiness : String → String → List RunHistory → StabilityReport
unfolding tally is_of
flakiness name target es =
    let (runs, successes, failures) = tally (filter (is_of name target) es) in
    record {
      runs = runs;
      failures = failures;
      flaky = leb 2 runs && ltb 0 successes && ltb 0 failures;
    }

pub record TargetStats : Type 0 where
  pub total_runs : ℕ
  pub success_runs : ℕ
  pub total_cost : Usd
  pub avg_cost : Usd
  pub total_duration : Duration
  pub avg_duration : Duration

abbrev no_stats : TargetStats
no_stats = record {
  total_runs = 0;
  success_runs = 0;
  total_cost = 0;
  avg_cost = 0;
  total_duration = 0;
  avg_duration = 0;
}

add_run : RunHistory → TargetStats → TargetStats
add_run e st =
    if e.success
    then record st {
      total_runs = st.total_runs + 1;
      success_runs = st.success_runs + 1;
      total_cost = st.total_cost + e.actual_cost;
      total_duration = st.total_duration + e.actual_duration;
    }
    else record st { total_runs = st.total_runs + 1 }

add_runs : String → TargetStats → List RunHistory → TargetStats
unfolding add_run
add_runs target st [] = st
add_runs target st (e ∷ es) =
    add_runs target (if str_eq e.target_id target then add_run e st else st) es

-- Stats; the average cost is cut to 1/10000 USD.
unfoldable pub stats : String → List RunHistory → TargetStats
unfolding add_runs
stats target es =
    let st = add_runs target no_stats es in
    if ltb 0 st.success_runs
    then record st {
      avg_cost = st.total_cost / st.success_runs;
      avg_duration = st.total_duration / st.success_runs;
    }
    else st
