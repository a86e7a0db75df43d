-- ===== src/Run/Record.antt =====
-- internal/run/store.go, with RunFromRecord of reconnect.go and spend.go: the record of a run on
-- disk. A file system is a list of files by name; the codec, the standard JSON, is a parameter.
use dispatcher.Prelude.{
  ℕ, ◌+◌, String, Bool, false, ◌&&◌, ◌||◌, not, List, [], ◌∷◌, Option, none, some, ◌==◌,
  if◌then◌else◌, str_eq, any, codes,
}
use dispatcher.Types.{RunState, is_terminal, Time, Duration, Usd, CostEstimate}
use dispatcher.Adapter.{FailureDetails}
use dispatcher.Approval.{Record}
use dispatcher.Run.State.{PhaseMark, LifecycleMode, Failure, Run}

pub record RunRecord : Type 0 where
  pub id : String
  pub plan_id : String
  pub target_id : String
  pub owner : String
  pub state : RunState
  pub started_at : Time
  pub finished_at : Time
  pub error : Option Failure
  pub cost : CostEstimate
  pub failure : FailureDetails
  pub retry_count : ℕ
  pub cleanup_error : Bool
  pub timeline : List PhaseMark
  pub handle_id : String
  pub handle_state : Option String
  pub lifecycle : LifecycleMode
  pub watchdog_ttl : Duration
  pub last_heartbeat : Time
  pub log_file : String
  pub approval : Option Record

-- Run.ToRecord.
unfoldable pub to_record : Run → RunRecord
to_record r = record {
  id = r.id;
  plan_id = r.plan_id;
  target_id = r.target_id;
  owner = r.owner;
  state = r.state;
  started_at = r.started_at;
  finished_at = r.finished_at;
  error = r.error;
  cost = r.cost;
  failure = r.failure;
  retry_count = r.retry_count;
  cleanup_error = r.cleanup_error;
  timeline = r.timeline;
  handle_id = r.handle_id;
  handle_state = r.handle_state;
  lifecycle = r.lifecycle;
  watchdog_ttl = r.watchdog_ttl;
  last_heartbeat = r.last_heartbeat;
  log_file = r.log_file;
  approval = r.approval;
}

-- RunFromRecord: without the plan, the handle and the artifacts.
unfoldable pub run_from_record : RunRecord → Run
run_from_record rec = record {
  id = rec.id;
  plan_id = rec.plan_id;
  target_id = rec.target_id;
  owner = rec.owner;
  state = rec.state;
  plan = none;
  handle = none;
  started_at = rec.started_at;
  finished_at = rec.finished_at;
  error = rec.error;
  artifacts = [];
  cost = rec.cost;
  failure = rec.failure;
  retry_count = rec.retry_count;
  cleanup_error = rec.cleanup_error;
  timeline = rec.timeline;
  handle_id = rec.handle_id;
  handle_state = rec.handle_state;
  lifecycle = rec.lifecycle;
  watchdog_ttl = rec.watchdog_ttl;
  last_heartbeat = rec.last_heartbeat;
  log_file = rec.log_file;
  approval = rec.approval;
}

-- Two full stops in a row.
unfoldable pub has_dots : List ℕ → Bool
has_dots [] = false
has_dots (c ∷ []) = false
has_dots (c ∷ d ∷ cs) = (c == 46 && d == 46) || has_dots (d ∷ cs)

-- validateRunID: not empty, no slash of either kind, no traversal.
unfoldable pub is_valid_run_id : String → Bool
unfolding has_dots
is_valid_run_id id =
    not (str_eq id "")
    && not (any (λ c. c == 47 || c == 92) (codes id))
    && not (has_dots (codes id))

-- The directory of the runs: the content of `<id>.json`, by id.
abbrev pub Files : Type 0
Files = List (String × String)

unfoldable pub read_file : Files → String → Option String
read_file [] id = none
read_file ((name, content) ∷ fs) id = if str_eq name id then some content else read_file fs id

-- Written to a temporary file, and renamed over the old one.
unfoldable pub write_file : Files → String → String → Files
write_file [] id content = (id, content) ∷ []
write_file ((name, old) ∷ fs) id content =
    let rest = write_file fs id content in
    if str_eq name id then (name, content) ∷ fs else (name, old) ∷ rest

module _ (encode : RunRecord → String) (decode : String → Option RunRecord) where
  -- Run.Save; `none` is a refused id.
  unfoldable pub save : Files → Run → Option Files
  save fs r =
      if is_valid_run_id r.id then some (write_file fs r.id (encode (to_record r))) else none

  -- LoadRecord; `none` is an error.
  unfoldable pub load_record : Files → String → Option RunRecord
  load_record fs id =
      if is_valid_run_id id
      then (elim (read_file fs id) [ none ↦ none | some content ↦ decode content ])
      else none

  -- LoadRecordByPlanID, over the ids that ListRecords gives.
  unfoldable pub load_by_plan : Files → List String → String → Option RunRecord
  load_by_plan fs [] plan_id = none
  load_by_plan fs (id ∷ ids) plan_id =
      let rest = load_by_plan fs ids plan_id in
      elim (load_record fs id) [
        | none ↦ rest
        | some rec ↦ if str_eq rec.plan_id plan_id then some rec else rest
      ]

  -- ActiveSpend: the money at risk, and the number of runs.
  unfoldable pub active_spend : Files → List String → Usd × ℕ
  active_spend fs [] = (0, 0)
  active_spend fs (id ∷ ids) =
      let (total, count) = active_spend fs ids in
      elim (load_record fs id) [
        | none ↦ (total, count)
        | some rec ↦
            if is_terminal rec.state || rec.cost.value == 0
            then (total, count)
            else (total + rec.cost.value, count + 1)
      ]
