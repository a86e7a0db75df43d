-- ===== src/Attest/Session/Exchange.antt =====
-- What a session gives away, and what it delivers.
use dispatcher.Prelude.{
  ℕ, [], Option, none, some, ◌≡◌, ◌⊎◌, inl, inr, refl, sym, take, length, Result, ok, err,
  Option-cases,
}
use dispatcher.Attest.Bytes.{Bytes}
use dispatcher.Attest.Session.{
  frame, read_msg, write_msg, Connection, handshake_failed, invalid_evidence, no_certificate,
  bind_data, max_evidence, judge_evidence, send_nonce, client_attest, send_request, client_run,
  SessionError,
}
use dispatcher.Attest.Session.Frames.{take_all}

-- Part of the frame of the nonce.
abbrev pub OnlyNonce : Bytes → Bytes → Type 0
OnlyNonce nonce sent = (k : ℕ) × (sent ≡ take k (frame nonce))

module _ (sha256 : Bytes → Bytes) {V : Type 0} (validate : Bytes → Bytes → Bytes → Option V) where
  -- The peer's evidence was read and accepted for the key that it showed and this session.
  pub record IsVerified (c : Connection) (peer_spki : Option Bytes) (nonce : Bytes) : Type 0 where
    pub exporter : Bytes
    pub spki : Bytes
    pub evidence : Bytes
    pub rest : Bytes
    pub v : V
    pub handshake : c.exporter ≡ some exporter
    pub shown : peer_spki ≡ some spki
    pub received : read_msg max_evidence c.inbox ≡ ok (evidence, rest)
    pub accepted : validate evidence (bind_data sha256 spki exporter) nonce ≡ some v

  -- The reply was read and accepted.
  abbrev pub Accepts : Connection → Bytes → Bytes → Type 0
  Accepts c bound nonce =
      (evidence : Bytes) × ((rest : Bytes) × ((v : V) × (read_msg max_evidence c.inbox
            ≡ ok (evidence, rest))
          × (validate evidence bound nonce ≡ some v)))

  judge_evidence_cases :
      (bound nonce : Bytes) (r : Result SessionError (Bytes × Bytes))
      → ((e : SessionError) × (judge_evidence sha256 validate bound nonce r ≡ err e))
        ⊎ ((evidence : Bytes) × ((rest : Bytes) × ((v : V) × (r ≡ ok (evidence, rest))
                × (validate evidence bound nonce ≡ some v))))
  unfolding judge_evidence
  judge_evidence_cases bound nonce (err e) = inl (e, refl)
  judge_evidence_cases bound nonce (ok (evidence, rest)) =
      elim (Option-cases (validate evidence bound nonce)) [
        | inl n ↦ inl (invalid_evidence, rw (n, judge_evidence) refl)
        | inr (v, y) ↦ inr (evidence, (rest, (v, refl, y)))
      ]

  -- The first message carries at most the nonce, and then the peer is refused or accepted.
  abbrev Outcome : Connection → Bytes → Bytes → Bytes × Result SessionError (V × Bytes) → Type 0
  Outcome c bound nonce out =
      OnlyNonce nonce out.0 × (((e : SessionError) × (out.1 ≡ err e)) ⊎ Accepts c bound nonce)

  send_nonce_cases :
      (c : Connection) (spki exporter nonce : Bytes)
      → Outcome c
          (bind_data sha256 spki exporter)
          nonce
          (send_nonce sha256 validate c spki exporter nonce)
  unfolding send_nonce write_msg
  send_nonce_cases c spki exporter nonce = elim (Option-cases (c.failing 0)) [
    | inl n ↦ rw n (
      (length (frame nonce), sym (take_all (frame nonce))),
      judge_evidence_cases (bind_data sha256 spki exporter) nonce (read_msg max_evidence c.inbox),
    )
    | inr (k, y) ↦ rw y ((k, refl), inl (_, refl))
  ]

  client_attest-none :
      (c : Connection) (peer_spki : Option Bytes) (nonce : Bytes)
      → c.exporter ≡ none
      → client_attest sha256 validate c peer_spki nonce ≡ ([], err handshake_failed)
  unfolding client_attest
  client_attest-none c peer_spki nonce x = rw x refl

  client_attest_uncertified :
      (c : Connection) (nonce exporter : Bytes)
      → c.exporter ≡ some exporter
      → client_attest sha256 validate c none nonce ≡ ([], err no_certificate)
  unfolding client_attest
  client_attest_uncertified c nonce exporter x = rw x refl

  client_attest-some :
      (c : Connection) (spki nonce exporter : Bytes)
      → c.exporter ≡ some exporter
      → client_attest sha256 validate c (some spki) nonce
        ≡ send_nonce sha256 validate c spki exporter nonce
  unfolding client_attest
  client_attest-some c spki nonce exporter x = rw x refl

  -- Where the attestation succeeds, the peer is verified; in any case only the nonce was sent.
  client_attest_cases :
      (c : Connection) (peer_spki : Option Bytes) (nonce : Bytes)
      → OnlyNonce nonce (client_attest sha256 validate c peer_spki nonce).0
        × (((e : SessionError) × ((client_attest sha256 validate c peer_spki nonce).1 ≡ err e))
            ⊎ IsVerified c peer_spki nonce)
  client_attest_cases c none nonce = elim (Option-cases c.exporter) [
    | inl n ↦ rw (client_attest-none c none nonce n) ((0, refl), inl (_, refl))
    | inr (exporter, x) ↦
        rw (client_attest_uncertified c nonce exporter x) ((0, refl), inl (_, refl))
  ]
  client_attest_cases c (some spki) nonce = elim (Option-cases c.exporter) [
    | inl n ↦ rw (client_attest-none c (some spki) nonce n) ((0, refl), inl (_, refl))
    | inr (exporter, x) ↦
        let s = send_nonce_cases c spki exporter nonce in
        rw (client_attest-some c spki nonce exporter x) (
          s.0,
          elim s.1 [
            | inl e ↦ inl e
            | inr (evidence, (rest, (v, r, y))) ↦ inr (record {
              exporter = exporter;
              spki = spki;
              evidence = evidence;
              rest = rest;
              v = v;
              handshake = x;
              shown = refl;
              received = r;
              accepted = y;
            })
          ],
        )
  ]

  send_request_refused :
      (c : Connection) (request : Bytes) (out : Bytes × Result SessionError (V × Bytes))
      (e : SessionError)
      → out.1 ≡ err e
      → send_request sha256 validate c request out ≡ (out.0, err e)
  unfolding send_request
  send_request_refused c request (sent, err f) e h = cc
  send_request_refused c request (sent, ok r) e h = cc

  -- Nothing but the nonce leaves the client, and it reports an error, unless the peer's evidence was
  -- accepted for its key, this session and this nonce.
  pub client_run-IsVerified :
      (c : Connection) (peer_spki : Option Bytes) (nonce request : Bytes)
      → (OnlyNonce nonce (client_run sha256 validate c peer_spki nonce request).0
          × ((e : SessionError) × ((client_run sha256 validate c peer_spki nonce request).1
                ≡ err e)))
        ⊎ IsVerified c peer_spki nonce
  unfolding client_run
  client_run-IsVerified c peer_spki nonce request =
      let a = client_attest_cases c peer_spki nonce in
      elim a.1 [
        | inl (e, h) ↦
            let r =
              send_request_refused c request (client_attest sha256 validate c peer_spki nonce) e
                h in
            inl (rw r (a.0, (e, refl)))
        | inr y ↦ inr y
      ]
