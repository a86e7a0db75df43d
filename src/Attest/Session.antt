-- ===== src/Attest/Session.antt =====
-- internal/attest/atls/atls.go: the attested exchange over a TLS session, one side at a time, on what
-- the side receives. The handshake, the exporter and the random nonce come from outside, and so does
-- how much of a failing write got through. Deadlines and cancellation show as failing calls.
pub mod Frames
pub mod Exchange
pub mod Delivery
use dispatcher.Prelude.{
  ℕ, ◌+◌, ◌*◌, ◌/◌, ◌%◌, ◌^◌, Bool, true, false, not, List, [], ◌∷◌, ◌++◌, Option, none, some, ltb,
  ◌==◌, if◌then◌else◌, take, drop, length, Result, ok, err,
}
use dispatcher.Attest.Bytes.{Bytes}

abbrev pub nonce_len : ℕ
nonce_len = 32

unfoldable pub max_evidence : ℕ
max_evidence = 2 ^ 20

unfoldable pub max_message : ℕ
max_message = 256 * 2 ^ 20

pub data SessionError : Type 0 where
  handshake_failed no_certificate write_failed short_read too_long : SessionError
  invalid_evidence nonce_length issue_failed handle_failed : SessionError

-- binary.BigEndian.PutUint32 of uint32(n).
unfoldable pub put_uint32 : ℕ → Bytes
put_uint32 n = n / 2 ^ 24 % 256 ∷ n / 2 ^ 16 % 256 ∷ n / 2 ^ 8 % 256 ∷ n % 256 ∷ []

-- The bytes of writeMsg.
unfoldable pub frame : Bytes → Bytes
unfolding put_uint32
frame b = put_uint32 (length b) ++ b

-- readMsg, on the bytes that are still to come: the message and what follows it.
unfoldable pub read_msg : ℕ → Bytes → Result SessionError (Bytes × Bytes)
read_msg max (a ∷ b ∷ c ∷ d ∷ rest) =
    let n = ((a * 256 + b) * 256 + c) * 256 + d in
    if ltb max n
    then err too_long
    else if ltb (length rest) n
    then err short_read
    else ok (take n rest, drop n rest)
read_msg max _ = err short_read

-- writeMsg: what was sent, and whether all of it. `some k` is a write that failed after k bytes.
unfoldable pub write_msg : Option ℕ → Bytes → Bytes × Bool
unfolding frame
write_msg none b = (frame b, true)
write_msg (some k) b = (take k (frame b), false)

-- One side of a connection.
pub record Connection : Type 0 where
  -- handshakeAndExport.
  pub exporter : Option Bytes
  -- What this side will receive.
  pub inbox : Bytes
  -- Which of its writes fail.
  pub failing : ℕ → Option ℕ

module _ (sha256 : Bytes → Bytes) where
  -- bindData.
  unfoldable pub bind_data : Bytes → Bytes → Bytes
  bind_data cert_spki exporter = sha256 (cert_spki ++ exporter)

  module _ {V : Type 0} (validate : Bytes → Bytes → Bytes → Option V) where
    -- The evidence, judged.
    unfoldable pub judge_evidence :
        Bytes → Bytes → Result SessionError (Bytes × Bytes) → Result SessionError (V × Bytes)
    judge_evidence bound nonce (err e) = err e
    judge_evidence bound nonce (ok (evidence, rest)) = elim (validate evidence bound nonce) [
      | none ↦ err invalid_evidence
      | some v ↦ ok (v, rest)
    ]

    unfoldable pub send_nonce :
        Connection → Bytes → Bytes → Bytes → Bytes × Result SessionError (V × Bytes)
    unfolding write_msg bind_data judge_evidence read_msg
    send_nonce c spki exporter nonce =
        let (sent, done) = write_msg (c.failing 0) nonce in
        if done
        then (sent, judge_evidence (bind_data spki exporter) nonce (read_msg max_evidence c.inbox))
        else (sent, err write_failed)

    -- ClientAttest: what was sent, and the verdict with what is still to come.
    unfoldable pub client_attest :
        Connection → Option Bytes → Bytes → Bytes × Result SessionError (V × Bytes)
    unfolding send_nonce
    client_attest c peer_spki nonce = elim c.exporter [
      | none ↦ ([], err handshake_failed)
      | some exporter ↦ elim peer_spki [
        | none ↦ ([], err no_certificate)
        | some spki ↦ send_nonce c spki exporter nonce
      ]
    ]

    receive : V → Result SessionError (Bytes × Bytes) → Result SessionError (V × Bytes)
    receive v (err e) = err e
    receive v (ok (response, rest)) = ok (v, response)

    send_request :
        Connection
        → Bytes
        → Bytes × Result SessionError (V × Bytes)
        → Bytes × Result SessionError (V × Bytes)
    unfolding write_msg read_msg receive
    send_request c request (sent, err e) = (sent, err e)
    send_request c request (sent, ok (v, rest)) =
        let (more, done) = write_msg (c.failing 1) request in
        if done
        then (sent ++ more, receive v (read_msg max_message rest))
        else (sent ++ more, err write_failed)

    -- ClientRun: what was sent, and the verdict with the response.
    unfoldable pub client_run :
        Connection → Option Bytes → Bytes → Bytes → Bytes × Result SessionError (V × Bytes)
    unfolding client_attest send_request
    client_run c peer_spki nonce request = send_request c request (client_attest c peer_spki nonce)

  module _ (issue : Bytes → Bytes → Option Bytes) (cert_spki : Bytes) where
    send_evidence :
        Connection → Bytes → Result SessionError (Bytes × Bytes) → Bytes × Result SessionError Bytes
    unfolding write_msg bind_data
    send_evidence c exporter (err e) = ([], err e)
    send_evidence c exporter (ok (nonce, rest)) =
        if not (length nonce == nonce_len)
        then ([], err nonce_length)
        else elim (issue (bind_data cert_spki exporter) nonce) [
          | none ↦ ([], err issue_failed)
          | some evidence ↦
              let (sent, done) = write_msg (c.failing 0) evidence in
              if done then (sent, ok rest) else (sent, err write_failed)
        ]

    -- ServerAttest: what was sent, and what is still to come.
    unfoldable pub server_attest : Connection → Bytes × Result SessionError Bytes
    unfolding send_evidence read_msg
    server_attest c = elim c.exporter [
      | none ↦ ([], err handshake_failed)
      | some exporter ↦ send_evidence c exporter (read_msg nonce_len c.inbox)
    ]

    module _ (handle : Bytes → Option Bytes) where
      send_response :
          Connection
          → Bytes
          → Result SessionError (Bytes × Bytes)
          → Bytes × Result SessionError (Unit {0})
      unfolding write_msg
      send_response c sent (err e) = (sent, err e)
      send_response c sent (ok (request, rest)) = elim (handle request) [
        | none ↦ (sent, err handle_failed)
        | some response ↦
            let (more, done) = write_msg (c.failing 1) response in
            if done then (sent ++ more, ok tt) else (sent ++ more, err write_failed)
      ]

      serve_request :
          Connection → Bytes × Result SessionError Bytes → Bytes × Result SessionError (Unit {0})
      unfolding send_response read_msg
      serve_request c (sent, err e) = (sent, err e)
      serve_request c (sent, ok rest) = send_response c sent (read_msg max_message rest)

      -- ServerRun.
      unfoldable pub server_run : Connection → Bytes × Result SessionError (Unit {0})
      unfolding server_attest serve_request
      server_run c = serve_request c (server_attest c)
