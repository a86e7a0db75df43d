-- ===== src/Run/Reconnect.antt =====
-- internal/run/reconnect.go: ReconnectToRun and RenewWatchdog. The adapters and the plan store are
-- parameters.
pub mod Faithful
use dispatcher.Prelude.{String, Option, none, some, if◌then◌else◌, str_eq}
use dispatcher.Types.{is_terminal, Time, Duration, Plan}
use dispatcher.Adapter.{RunHandle, CleanupResult}
use dispatcher.Run.State.{Run, effective_watchdog_ttl}
use dispatcher.Run.Record.{RunRecord, run_from_record}

-- What Cleanup returns: an error, or a result, which may be nil.
pub data Cleaned : Type 0 where
  cleanup_error nil_result : Cleaned
  cleanup_result : CleanupResult → Cleaned

-- The two methods of the optional interface DurableAdapter: `none` is their error.
pub record Durable : Type 0 where
  pub reconnect : String → String → Option RunHandle
  pub extend_watchdog : Option RunHandle → Duration → Option Time

pub record Target : Type 0 where
  pub durable : Option Durable
  pub on_cleanup : RunHandle → Cleaned

-- LoadRecord or the resolver failed; the record is terminal, and no adapter is given; the run with
-- its adapter; or both with an error.
pub data Reconnected : Type 0 where
  no_record no_adapter : Reconnected
  ended : Run → Reconnected
  live : Run → Target → Reconnected
  no_handle_state no_reconnection : Run → Target → Reconnected

abbrev pub with_plan : Option Plan → Run → Run
with_plan p r = record r { plan = p }

unfoldable pub reconnect_durable : Run → Target → RunRecord → Durable → Reconnected
reconnect_durable r a rec d = elim rec.handle_state [
  | none ↦ no_handle_state r a
  | some raw ↦
      if str_eq rec.handle_id ""
      then no_handle_state r a
      else elim (d.reconnect rec.handle_id raw) [
        | none ↦ no_reconnection r a
        | some h ↦ live (record r { handle = some h }) a
      ]
]

unfoldable pub reconnect_via : Run → Target → RunRecord → Option Durable → Reconnected
unfolding reconnect_durable
reconnect_via r a rec none = live r a
reconnect_via r a rec (some d) = reconnect_durable r a rec d

-- ReconnectToRun, with what LoadRecord gave.
unfoldable pub reconnect_to_run :
    (String → Option Target) → (String → Option Plan) → Option RunRecord → Reconnected
unfolding reconnect_via
reconnect_to_run resolve load_plan none = no_record
reconnect_to_run resolve load_plan (some rec) =
    if is_terminal rec.state then ended (run_from_record rec) else elim (resolve rec.target_id) [
      | none ↦ no_adapter
      | some a ↦
          reconnect_via (with_plan (load_plan rec.plan_id) (run_from_record rec)) a rec a.durable
    ]

pub data Renewed : Type 0 where
  nothing_to_renew no_watchdog renewal_failed : Renewed
  renewed : Time → Renewed

-- RenewWatchdog, at `now` once the watchdog is extended.
unfoldable pub renew_watchdog : Target → Run → Time → Run × Renewed
renew_watchdog a r now = if is_terminal r.state then (r, nothing_to_renew) else elim a.durable [
  | none ↦ (r, no_watchdog)
  | some d ↦ elim (d.extend_watchdog r.handle (effective_watchdog_ttl r)) [
    | none ↦ (r, renewal_failed)
    | some deadline ↦ (record r { last_heartbeat = now }, renewed deadline)
  ]
]
