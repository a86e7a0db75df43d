-- ===== src/Attest/Transport.antt =====
-- The client of internal/attest/agent/atls_transport.go, and the messages of exchange.go. Dialling and
-- JSON come from outside.
pub mod Guarded
use dispatcher.Prelude.{ℕ, ℤ, String, List, [], ◌∷◌, Option, none, some, Result, ok, err}
use dispatcher.Attest.Bytes.{Bytes}
use dispatcher.Attest.Session.{Connection, SessionError, client_run}

pub record Payload : Type 0 where
  pub command : List String
  pub dotenv : Bytes
  pub source_tar_gz : Bytes
  pub outputs : List String

pub record AgentResult : Type 0 where
  pub exit_code : ℤ
  pub stdout : Bytes
  pub stderr : Bytes
  pub outputs_tar_gz : Bytes

pub data TransportError : Type 0 where
  dial_failed marshal_failed unmarshal_failed : TransportError
  session_failed : SessionError → TransportError

-- What the agent's address gives: a connection, and the key of its certificate.
pub record Dialled : Type 0 where
  pub connection : Connection
  pub peer_spki : Option Bytes
  pub run_nonce : Bytes

module _ (sha256 : Bytes → Bytes) (marshal : Payload → Option Bytes)
    (unmarshal : Bytes → Option AgentResult) {V : Type 0}
    (validate : Bytes → Bytes → Bytes → Option V) where
  unfoldable pub read_result :
      Bytes × Result SessionError (V × Bytes) → Bytes × Result TransportError (V × AgentResult)
  read_result (sent, err e) = (sent, err (session_failed e))
  read_result (sent, ok (v, response)) = elim (unmarshal response) [
    | none ↦ (sent, err unmarshal_failed)
    | some res ↦ (sent, ok (v, res))
  ]

  -- RunOverATLS: what was sent, and the verdict with the agent's result.
  unfoldable pub run_over_atls :
      Option Dialled → Payload → Bytes × Result TransportError (V × AgentResult)
  unfolding client_run read_result
  run_over_atls none payload = ([], err dial_failed)
  run_over_atls (some d) payload = elim (marshal payload) [
    | none ↦ ([], err marshal_failed)
    | some request ↦
        read_result (client_run sha256 validate d.connection d.peer_spki d.run_nonce request)
  ]
