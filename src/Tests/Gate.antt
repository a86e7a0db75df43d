-- ===== src/Tests/Gate.antt =====
-- The approval gate, and the classification of failures, at work.
use dispatcher.Prelude.{false, List, [], ◌∷◌, some, ◌≡◌, refl, ◌↔◌}
use dispatcher.Adapter.Classify.{
  classify_failure, transient, IsEnvironmental, classify_failure-transient_iff,
}
use dispatcher.Approval.{Gate, new_gate, wait_settled, in_process_msg, settle, grants}
use dispatcher.Approval.Settle.{settle_all, settle_all-winner}
use dispatcher.Approval.Wire.{WireMsg, already_decided, handle_conn, handle_conn_error_unchanged}
use dispatcher.Approval.Steps.{
  Event, external, in_process, take, run_gate, step, start, denial_acked, approved_no_denial_acked,
}
use dispatcher.Tests.Data.{yes_msg, no_msg, out_of_memory, gpu_approval, consent_record}

abbrev late : WireMsg
late = record { action = "decide"; decision = "approved"; decider = "bob" }

settle_all-winner_example :
    (settle_all (new_gate "run-1" []) (yes_msg ∷ no_msg ∷ yes_msg ∷ [])).result ≡ some no_msg
settle_all-winner_example = settle_all-winner "run-1" [] (yes_msg ∷ no_msg ∷ yes_msg ∷ [])

abbrev decided_gate : Gate
decided_gate = record { run_id = "run-1"; reqs = []; result = some no_msg; abandoned = false }

handle_conn_error_unchanged_example : (handle_conn decided_gate (some late)).0 ≡ decided_gate
unfolding handle_conn settle
handle_conn_error_unchanged_example =
    handle_conn_error_unchanged decided_gate late already_decided refl

-- An approval in the process, which Wait returns at time 2.
abbrev schedule : List Event
schedule = in_process (grants "ann") ∷ take 2 ∷ external no_msg ∷ []

approved_no_denial_acked_example :
    denial_acked (run_gate (start "run-1" (gpu_approval ∷ []) 1) schedule).acked ≡ false
unfolding run_gate start step wait_settled settle new_gate in_process_msg
approved_no_denial_acked_example =
    approved_no_denial_acked "run-1" (gpu_approval ∷ []) 1 schedule consent_record refl refl

classify_failure-transient_iff_example :
    (classify_failure out_of_memory ≡ transient) ↔ IsEnvironmental out_of_memory
classify_failure-transient_iff_example = classify_failure-transient_iff out_of_memory
