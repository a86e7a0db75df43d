-- ===== src/Run/Reconnect/Faithful.antt =====
-- What ReconnectToRun says of a record is true.
use dispatcher.Prelude.{
  String, true, false, Option, none, some, Bool-cases, Option-cases, str_eq, ◌≡◌, refl, inl, inr,
}
use dispatcher.Types.{is_terminal, Plan}
use dispatcher.Run.State.{Run}
use dispatcher.Run.Record.{RunRecord, run_from_record}
use dispatcher.Run.Reconnect.{
  Target, Reconnected, no_record, ended, live, reconnect_to_run, reconnect_via, reconnect_durable,
  Durable,
}

pub run_from_record-state : (rec : RunRecord) → (run_from_record rec).state ≡ rec.state
unfolding run_from_record
run_from_record-state rec = refl

-- What ReconnectToRun may say of a record.
unfoldable pub IsFaithful : RunRecord → Reconnected → Type 0
IsFaithful rec no_record = ⊥
IsFaithful rec (ended r) = (is_terminal rec.state ≡ true) × (r ≡ run_from_record rec)
IsFaithful rec (live r a) = (is_terminal rec.state ≡ false) × (r.state ≡ rec.state)
IsFaithful rec _ = is_terminal rec.state ≡ false

pub reconnect_durable-IsFaithful :
    (r : Run) (a : Target) (rec : RunRecord) (d : Durable)
    → is_terminal rec.state ≡ false
    → r.state ≡ rec.state
    → IsFaithful rec (reconnect_durable r a rec d)
unfolding reconnect_durable IsFaithful
reconnect_durable-IsFaithful r a rec d n same = elim (Option-cases rec.handle_state) [
  | inl e ↦ rw e n
  | inr (raw, e) ↦ rw e (elim (Bool-cases (str_eq rec.handle_id "")) [
    | inl t ↦ rw t n
    | inr f ↦ rw f (elim (Option-cases (d.reconnect rec.handle_id raw)) [
      | inl none_left ↦ rw none_left n
      | inr (h, got) ↦ rw got (n, same)
    ])
  ])
]

pub reconnect_via-IsFaithful :
    (r : Run) (a : Target) (rec : RunRecord) (o : Option Durable)
    → is_terminal rec.state ≡ false
    → r.state ≡ rec.state
    → IsFaithful rec (reconnect_via r a rec o)
unfolding reconnect_via IsFaithful
reconnect_via-IsFaithful r a rec none n same = (n, same)
reconnect_via-IsFaithful r a rec (some d) n same = reconnect_durable-IsFaithful r a rec d n same

pub reconnect_to_run-IsFaithful :
    (resolve : String → Option Target) (load_plan : String → Option Plan) (rec : RunRecord)
    → IsFaithful rec (reconnect_to_run resolve load_plan (some rec))
unfolding reconnect_to_run IsFaithful
reconnect_to_run-IsFaithful resolve load_plan rec = elim (Bool-cases (is_terminal rec.state)) [
  | inl t ↦ rw t (t, refl)
  | inr n ↦ rw n (elim (Option-cases (resolve rec.target_id)) [
    | inl e ↦ rw e n
    | inr (a, e) ↦ rw e (reconnect_via-IsFaithful _ a rec a.durable n (run_from_record-state rec))
  ])
]
