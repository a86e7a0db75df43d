-- ===== src/Attest/Session/Delivery.antt =====
-- Two honest sides that hear each other.
use mathlib.Core.List.{append-nil}
use dispatcher.Prelude.{
  ℕ, ◌^◌, ◌≤◌, ◌<◌, [], ◌++◌, Option, none, some, ◌≡◌, refl, sym, ap, ◌∙◌, arith, length, Result,
  ok, err, ==_iff, Option-cases, Bool-cases, inl, inr,
}
use dispatcher.Attest.Bytes.{Bytes}
use dispatcher.Attest.Session.{
  frame, read_msg, write_msg, Connection, bind_data, max_evidence, max_message, nonce_len,
  judge_evidence, send_nonce, client_attest, send_request, receive, client_run, send_evidence,
  server_attest, send_response, serve_request, server_run, SessionError,
}
use dispatcher.Attest.Session.Frames.{read_msg-frame}

-- Both sides agree on the exporter, no write fails, and the agent answers for its own key.
pub record IsHonest (sha256 : Bytes → Bytes) {V : Type 0}
    (validate : Bytes → Bytes → Bytes → Option V) (issue : Bytes → Bytes → Option Bytes)
    (handle : Bytes → Option Bytes) (client server : Connection)
    (spki nonce request evidence response : Bytes) (v : V) : Type 0 where
  pub exporter : Bytes
  pub client_exporter : client.exporter ≡ some exporter
  pub server_exporter : server.exporter ≡ some exporter
  pub client_writes : (i : ℕ) → client.failing i ≡ none
  pub server_writes : (i : ℕ) → server.failing i ≡ none
  pub issued : issue (bind_data sha256 spki exporter) nonce ≡ some evidence
  pub accepted : validate evidence (bind_data sha256 spki exporter) nonce ≡ some v
  pub handled : handle request ≡ some response
  pub nonce_size : length nonce ≡ nonce_len
  pub evidence_size : length evidence ≤ max_evidence
  pub request_size : length request ≤ max_message
  pub response_size : length response ≤ max_message

small_evidence : (n : ℕ) → n ≤ max_evidence → n < 2 ^ 32
unfolding max_evidence
small_evidence n h = omega arith

small_message : (n : ℕ) → n ≤ max_message → n < 2 ^ 32
unfolding max_message
small_message n h = omega arith

module _ (sha256 : Bytes → Bytes) {V : Type 0} (validate : Bytes → Bytes → Bytes → Option V)
    (issue : Bytes → Bytes → Option Bytes) (handle : Bytes → Option Bytes)
    {client server : Connection} {spki nonce request evidence response : Bytes} {v : V}
    (h : IsHonest sha256 validate issue handle client server spki nonce request evidence response
      v) where
  server_attest-ok :
      (rest : Bytes)
      → server.inbox ≡ frame nonce ++ rest
      → server_attest sha256 issue spki server ≡ (frame evidence, ok rest)
  unfolding server_attest send_evidence write_msg
  server_attest-ok rest i =
      let fits : length nonce ≤ nonce_len = omega (arith, h.nonce_size) in
      let r = read_msg-frame nonce_len nonce rest fits (omega (arith, h.nonce_size)) in
      rw (h.server_exporter, i, r, (==_iff _ _).1 h.nonce_size, h.issued, h.server_writes 0) refl

  client_attest-ok :
      (rest : Bytes)
      → client.inbox ≡ frame evidence ++ rest
      → client_attest sha256 validate client (some spki) nonce ≡ (frame nonce, ok (v, rest))
  unfolding client_attest send_nonce judge_evidence write_msg
  client_attest-ok rest i =
      let r =
        read_msg-frame max_evidence evidence rest h.evidence_size
          (small_evidence _ h.evidence_size) in
      rw (h.client_exporter, h.client_writes 0, i, r, h.accepted, judge_evidence) refl

  send_response_extends :
      (c : Connection) (sent : Bytes) (r : Result SessionError (Bytes × Bytes))
      → (tail : Bytes) × ((send_response sha256 issue spki handle c sent r).0 ≡ sent ++ tail)
  unfolding send_response
  send_response_extends c sent (err e) = ([], sym (append-nil sent))
  send_response_extends c sent (ok (asked, rest)) = elim (Option-cases (handle asked)) [
    | inl n ↦ ([], rw (n, send_response) (sym (append-nil sent)))
    | inr (b, y) ↦
        let out = (write_msg (c.failing 1) b).0 in
        elim (Bool-cases (write_msg (c.failing 1) b).1) [
          | inl t ↦ (out, rw (y, send_response, t) refl)
          | inr f ↦ (out, rw (y, send_response, f) refl)
        ]
  ]

  -- What the server sends begins with what it sent before.
  serve_request_extends :
      (c : Connection) (out : Bytes × Result SessionError Bytes)
      → (tail : Bytes) × ((serve_request sha256 issue spki handle c out).0 ≡ out.0 ++ tail)
  unfolding serve_request
  serve_request_extends c (sent, err e) = ([], sym (append-nil sent))
  serve_request_extends c (sent, ok rest) = send_response_extends c sent (read_msg max_message rest)

  send_request_extends :
      (c : Connection) (out : Bytes × Result SessionError (V × Bytes))
      → (tail : Bytes) × ((send_request sha256 validate c request out).0 ≡ out.0 ++ tail)
  unfolding send_request
  send_request_extends c (sent, err e) = ([], sym (append-nil sent))
  send_request_extends c (sent, ok (w, rest)) =
      let out = (write_msg (c.failing 1) request).0 in
      elim (Bool-cases (write_msg (c.failing 1) request).1) [
        | inl t ↦ (out, rw t refl)
        | inr f ↦ (out, rw f refl)
      ]

  client_attest_sends : (client_attest sha256 validate client (some spki) nonce).0 ≡ frame nonce
  unfolding client_attest send_nonce write_msg
  client_attest_sends = rw (h.client_exporter, h.client_writes 0) refl

  client_first :
      (tail : Bytes) × ((client_run sha256 validate client (some spki) nonce request).0
        ≡ frame nonce ++ tail)
  unfolding client_run
  client_first =
      let e =
        send_request_extends client (client_attest sha256 validate client (some spki) nonce) in
      (e.0, e.1 ∙ ap (λ z. z ++ e.0) client_attest_sends)

  client_all :
      (rest : Bytes)
      → client.inbox ≡ frame evidence ++ rest
      → client_run sha256 validate client (some spki) nonce request
        ≡ (frame nonce ++ frame request, receive sha256 validate v (read_msg max_message rest))
  unfolding client_run send_request write_msg
  client_all rest i =
      ap (send_request sha256 validate client request) (client_attest-ok rest i)
      ∙ rw (h.client_writes 1) refl

  server_all :
      (rest : Bytes)
      → server.inbox ≡ frame nonce ++ rest
      → server_run sha256 issue spki handle server
        ≡ send_response sha256 issue spki handle server (frame evidence) (read_msg max_message rest)
  unfolding server_run serve_request
  server_all rest i = rw (server_attest-ok rest i) refl

  respond :
      send_response sha256 issue spki handle server (frame evidence) (ok (request, []))
      ≡ (frame evidence ++ frame response, ok tt)
  unfolding send_response write_msg
  respond = rw (h.handled, send_response, h.server_writes 1) refl

  -- Two honest sides that hear each other finish: the agent accepts the request, and the dispatcher
  -- gets its response with the verdict on its evidence.
  pub session_delivers :
      client.inbox ≡ (server_run sha256 issue spki handle server).0
      → server.inbox ≡ (client_run sha256 validate client (some spki) nonce request).0
      → ((client_run sha256 validate client (some spki) nonce request).1 ≡ ok (v, response))
        × ((server_run sha256 issue spki handle server).1 ≡ ok tt)
  unfolding receive
  session_delivers ci si =
      let first = client_first in
      let s1 = server_all first.0 (si ∙ first.1) in
      let t = send_response_extends server (frame evidence) (read_msg max_message first.0) in
      let c1 = client_all t.0 (ci ∙ ap (λ out. out.0) s1 ∙ t.1) in
      let whole : server.inbox ≡ frame nonce ++ frame request = si ∙ ap (λ out. out.0) c1 in
      let r =
        read_msg-frame max_message request [] h.request_size (small_message _ h.request_size) in
      let s2 = server_all (frame request) whole in
      let s3 : server_run sha256 issue spki handle server
          ≡ (frame evidence ++ frame response, ok tt) =
        s2 ∙ rw (sym (append-nil (frame request)), r) respond in
      let c2 = client_all (frame response) (ci ∙ ap (λ out. out.0) s3) in
      let q =
        read_msg-frame max_message response [] h.response_size (small_message _ h.response_size) in
      (ap (λ out. out.1) c2 ∙ rw (sym (append-nil (frame response)), q) refl, ap (λ out. out.1) s3)
