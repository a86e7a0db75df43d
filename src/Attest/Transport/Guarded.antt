-- ===== src/Attest/Transport/Guarded.antt =====
-- The payload is sent only to a verified agent.
use dispatcher.Prelude.{
  [], Option, none, some, ◌≡◌, ◌⊎◌, inl, inr, refl, Result, ok, err, Option-cases,
}
use dispatcher.Attest.Bytes.{Bytes}
use dispatcher.Attest.Session.{SessionError, client_run}
use dispatcher.Attest.Session.Exchange.{IsVerified, OnlyNonce, client_run-IsVerified}
use dispatcher.Attest.Transport.{
  Payload, AgentResult, TransportError, Dialled, session_failed, read_result, run_over_atls,
  dial_failed, marshal_failed,
}

-- At most the nonce of the connection was sent.
abbrev pub Harmless : Option Dialled → Bytes → Type 0
Harmless dialled sent =
    (sent ≡ []) ⊎ ((d : Dialled) × (dialled ≡ some d) × OnlyNonce d.run_nonce sent)

module _ (sha256 : Bytes → Bytes) (marshal : Payload → Option Bytes)
    (unmarshal : Bytes → Option AgentResult) {V : Type 0}
    (validate : Bytes → Bytes → Bytes → Option V) where
  -- The agent at the other end of the connection was verified.
  abbrev pub Reaches : Option Dialled → Type 0
  Reaches dialled =
      (d : Dialled) × (dialled ≡ some d)
      × IsVerified sha256 validate d.connection d.peer_spki d.run_nonce

  read_result_refused :
      (out : Bytes × Result SessionError (V × Bytes)) (e : SessionError)
      → out.1 ≡ err e
      → read_result sha256 marshal unmarshal validate out ≡ (out.0, err (session_failed e))
  unfolding read_result
  read_result_refused (sent, err f) e h = cc
  read_result_refused (sent, ok r) e h = cc

  -- Either at most the nonce was sent and the call failed, or the agent was verified.
  pub run_over_atls_guarded :
      (dialled : Option Dialled) (payload : Payload)
      → (Harmless dialled (run_over_atls sha256 marshal unmarshal validate dialled payload).0
          × ((e : TransportError) × ((run_over_atls sha256 marshal unmarshal validate dialled
                  payload).1
                ≡ err e)))
        ⊎ Reaches dialled
  unfolding run_over_atls
  run_over_atls_guarded none payload = inl (inl refl, (dial_failed, refl))
  run_over_atls_guarded (some d) payload = elim (Option-cases (marshal payload)) [
    | inl n ↦ rw (n, run_over_atls) (inl (inl refl, (marshal_failed, refl)))
    | inr (request, m) ↦
        elim (client_run-IsVerified sha256 validate d.connection d.peer_spki d.run_nonce request) [
          | inl (only, (e, f)) ↦
              let r =
                read_result_refused
                  (client_run sha256 validate d.connection d.peer_spki d.run_nonce request) e f in
              rw (m, run_over_atls, r) (inl (inr (d, refl, only), (session_failed e, refl)))
          | inr y ↦ inr (d, refl, y)
        ]
  ]
