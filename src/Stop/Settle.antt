-- ===== src/Stop/Settle.antt =====
-- In which state `dispatcher stop` leaves a run, and what it calls.
use dispatcher.Prelude.{
  ℕ, String, Bool, true, false, List, [], ◌∷◌, ◌++◌, Option, none, some, is_some, Bool-cases, subst,
  ◌≡◌, refl, inl, inr, ◌∙◌, ap,
}
use dispatcher.Types.{
  RunState, cleaning_up, completed, stopping, cleanup_failed, is_terminal, Time, Plan,
}
use dispatcher.Adapter.{RunHandle}
use dispatcher.Run.State.{Run, not_cleaned, stranded, transition, set_error}
use dispatcher.Run.World.{Call, terminate, cleanup, save}
use dispatcher.Run.Record.{RunRecord, run_from_record}
use dispatcher.Run.Reconnect.{
  Target, Reconnected, no_record, no_adapter, ended, live, no_handle_state, no_reconnection,
  reconnect_to_run,
}
use dispatcher.Stop.{
  StopEnd, cannot_connect, already_terminal, stopped, cleanup_lost, force_stopped, lost,
  finalize_and_save, complete_stop, stop_on, stop_with, stop_live, force_stop, stop,
}
use dispatcher.Stop.Walk.{
  after_stop, moved, finalize_cost-state, transition-state, moved-settles, moved-live,
  set_error-state,
}
use dispatcher.Run.Reconnect.Faithful.{
  run_from_record-state, IsFaithful, reconnect_to_run-IsFaithful,
}

abbrev pub teardown : Option RunHandle → List Call
teardown none = []
teardown (some h) = terminate h ∷ cleanup h ∷ []

abbrev pub lost_by : Target → Option RunHandle → Bool
lost_by a none = false
lost_by a (some h) = lost (a.on_cleanup h)

-- How stop may end on a live run with this handle and state.
abbrev pub IsSettled : Option RunHandle → RunState → Target → StopEnd → Type 0
IsSettled o s a (stopped r calls) =
    (lost_by a o ≡ false)
    × (r.state ≡ after_stop (is_some o) s)
    × (calls ≡ teardown o ++ save r.state ∷ [])
IsSettled o s a (cleanup_lost r calls) =
    (lost_by a o ≡ true) × (r.state ≡ cleanup_failed) × (calls ≡ teardown o ++ save r.state ∷ [])
IsSettled o s a _ = ⊥

module _ (clock : ℕ → Time) (r : Run) (a : Target) (n : is_terminal r.state ≡ false) where
  abbrev cleaning : Run
  cleaning = (transition (transition r stopping (clock 0)).0 cleaning_up (clock 1)).0

  cleaning-state : cleaning.state ≡ moved (moved r.state stopping) cleaning_up
  cleaning-state =
      transition-state _ cleaning_up (clock 1)
      ∙ ap (λ s. moved s cleaning_up) (transition-state r stopping (clock 0))

  walk_with : (transition cleaning completed (clock 2)).0.state ≡ after_stop true r.state
  walk_with =
      transition-state cleaning completed (clock 2)
      ∙ (ap (λ s. moved s completed) cleaning-state ∙ (moved-settles r.state).0)

  walk_without :
      (transition (transition r stopping (clock 0)).0 completed (clock 2)).0.state
      ≡ after_stop false r.state
  walk_without =
      transition-state _ completed (clock 2)
      ∙ (ap (λ s. moved s completed) (transition-state r stopping (clock 0))
          ∙ (moved-settles r.state).1)

  walk_lost : (set_error cleaning cleanup_failed not_cleaned (clock 2)).state ≡ cleanup_failed
  walk_lost =
      set_error-state cleaning cleanup_failed not_cleaned (clock 2)
        (ap (λ s. is_terminal s) cleaning-state ∙ moved-live r.state n)

  stop_on-IsSettled : (h : RunHandle) → IsSettled (some h) r.state a (stop_on clock h r a)
  unfolding stop_on complete_stop finalize_and_save
  stop_on-IsSettled h =
      let done = (transition cleaning completed (clock 2)).0 in
      let lost_run = set_error cleaning cleanup_failed not_cleaned (clock 2) in
      elim (Bool-cases (lost (a.on_cleanup h))) [
        | inl yes_lost ↦
            rw yes_lost (yes_lost, finalize_cost-state lost_run (clock 3) ∙ walk_lost, refl)
        | inr kept ↦ rw kept (kept, finalize_cost-state done (clock 3) ∙ walk_with, refl)
      ]

  stop_with-IsSettled : (o : Option RunHandle) → IsSettled o r.state a (stop_with clock o r a)
  unfolding stop_with complete_stop finalize_and_save
  stop_with-IsSettled none =
      let done = (transition (transition r stopping (clock 0)).0 completed (clock 2)).0 in
      (refl, finalize_cost-state done (clock 3) ∙ walk_without, refl)
  stop_with-IsSettled (some h) = stop_on-IsSettled h

stop_live-IsSettled :
    (clock : ℕ → Time) (r : Run) (a : Target)
    → is_terminal r.state ≡ false
    → IsSettled r.handle r.state a (stop_live clock r a)
unfolding stop_live
stop_live-IsSettled clock r a n = stop_with-IsSettled clock r a n r.handle

-- A record that was finalised by force: no call of an adapter, and the run failed its cleanup.
abbrev pub IsForced : RunRecord → StopEnd → Type 0
IsForced rec (already_terminal r) = (is_terminal rec.state ≡ true) × (r ≡ run_from_record rec)
IsForced rec (force_stopped r calls) =
    (is_terminal rec.state ≡ false) × (r.state ≡ cleanup_failed) × (calls ≡ save r.state ∷ [])
IsForced rec _ = ⊥

force_stop-IsForced :
    (clock : ℕ → Time) (rec : RunRecord) → IsForced rec (force_stop clock (some rec))
unfolding force_stop finalize_and_save
force_stop-IsForced clock rec =
    let failed = set_error (run_from_record rec) cleanup_failed stranded (clock 2) in
    elim (Bool-cases (is_terminal rec.state)) [
      | inl t ↦ rw t (t, refl)
      | inr f ↦ rw f (
        f,
        finalize_cost-state failed (clock 3)
            ∙ set_error-state (run_from_record rec) cleanup_failed stranded (clock 2)
                (ap (λ s. is_terminal s) (run_from_record-state rec) ∙ f),
        refl,
      )
    ]

-- How the command may end on a record that reconnects so.
abbrev pub IsStopped : Bool → RunRecord → Reconnected → StopEnd → Type 0
IsStopped force rec (ended r) e =
    (is_terminal rec.state ≡ true) × (e ≡ already_terminal (run_from_record rec))
IsStopped force rec (live r a) e =
    (is_terminal rec.state ≡ false) × IsSettled r.handle rec.state a e
IsStopped true rec _ e = (is_terminal rec.state ≡ false) × IsForced rec e
IsStopped false rec _ e = (is_terminal rec.state ≡ false) × (e ≡ cannot_connect)

stop_by :
    (clock : ℕ → Time) (force : Bool) (rec : RunRecord) (out : Reconnected)
    → IsFaithful rec out
    → IsStopped force rec out (stop clock force (some rec) out)
unfolding stop IsFaithful
stop_by clock force rec no_record k = elim k [ ]
stop_by clock force rec (ended r) k = (k.0, ap (λ x. already_terminal x) k.1)
stop_by clock force rec (live r a) k = (
  k.0,
  subst (λ s. IsSettled r.handle s a (stop_live clock r a)) k.1
      (stop_live-IsSettled clock r a (ap (λ s. is_terminal s) k.1 ∙ k.0)),
)
stop_by clock true rec no_adapter k = (k, force_stop-IsForced clock rec)
stop_by clock false rec no_adapter k = (k, refl)
stop_by clock true rec (no_handle_state r a) k = (k, force_stop-IsForced clock rec)
stop_by clock false rec (no_handle_state r a) k = (k, refl)
stop_by clock true rec (no_reconnection r a) k = (k, force_stop-IsForced clock rec)
stop_by clock false rec (no_reconnection r a) k = (k, refl)

-- On a loaded record stop ends in one of these ways. A terminal record is left alone. A live run that
-- reconnects has Terminate and Cleanup called, only where there is a handle, and is saved: with a
-- handle and a failed cleanup as cleanup-failed; with a handle and a good one as completed if it
-- was running, stopping, reconciling its cost or cleaning up, and in its old state otherwise; and
-- without a handle as completed if it was cleaning up, as stopping if it was running, and in its
-- old state otherwise. A live record that does not reconnect is, with --force, saved as
-- cleanup-failed with no call of an adapter, and left alone without.
pub stop-IsStopped :
    (clock : ℕ → Time) (resolve : String → Option Target) (load_plan : String → Option Plan)
    (force : Bool) (rec : RunRecord)
    → IsStopped force rec
        (reconnect_to_run resolve load_plan (some rec))
        (stop clock force (some rec) (reconnect_to_run resolve load_plan (some rec)))
stop-IsStopped clock resolve load_plan force rec =
    stop_by clock force rec (reconnect_to_run resolve load_plan (some rec))
      (reconnect_to_run-IsFaithful resolve load_plan rec)
