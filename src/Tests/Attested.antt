-- ===== src/Tests/Attested.antt =====
-- Attestation, the attested session and the confidential runs, with toy cryptography.
use dispatcher.Prelude.{
  ℕ, ◌++◌, zero, suc, [], ◌∷◌, Option, none, some, ◌≡◌, refl, arith, codes, codes_eq, ok, err, ◌⊎◌,
  ◌>>=◌, check, require, if◌then◌else◌,
}
use dispatcher.Attest.Bytes.{Bytes, hex, fold_eq}
use dispatcher.Attest.Keys.{KeySet, certified}
use dispatcher.Attest.ConfidentialSpace.{
  CsToken, CsPolicy, Jose, cs_issuer, verify_cs_token, verify_jws, check_freshness, check_platform,
  cs_tee_type,
}
use dispatcher.Attest.ConfidentialSpace.Sound.{Carries, IsForRun, verify_cs_token-IsForRun}
use dispatcher.Attest.Session.{
  SessionError, Connection, frame, read_msg, server_run, client_run, bind_data, max_evidence,
  max_message,
}
use dispatcher.Attest.Session.Frames.{read_msg-frame}
use dispatcher.Attest.Session.Exchange.{OnlyNonce, client_run-IsVerified}
use dispatcher.Attest.Session.Exchange
use dispatcher.Attest.Session.Delivery.{IsHonest, session_delivers}

abbrev pub fill : ℕ → ℕ → Bytes
fill zero b = []
fill (suc n) b = b ∷ fill n b

abbrev pub run_nonce : Bytes
run_nonce = fill 32 7

abbrev pub key : Bytes
key = 1 ∷ 2 ∷ []

abbrev pub token : CsToken
token = record {
  iss = cs_issuer;
  aud = codes "dispatcher" ∷ [];
  exp = 100;
  nbf = 0;
  eat_nonce = hex run_nonce ∷ hex key ∷ [];
  hw_model = codes "GCP_AMD_SEV";
  sw_name = codes "CONFIDENTIAL_SPACE";
  dbg_stat = codes "disabled-since-boot";
  image_digest = codes "sha256:ab";
}

abbrev pub jose : Jose
jose = record {
  parse_signed = λ t. some (codes "k1" ∷ []);
  verified_payload = λ t k. some t;
  parse_token = λ b. some token;
  sha256 = λ b. b;
}

abbrev pub keys : KeySet
keys = (codes "k1", certified []) ∷ []

abbrev policy : CsPolicy
policy = record {
  nonce = run_nonce;
  image_digests = codes "sha256:AB" ∷ [];
  channel_key = key;
  expected_type = codes "sev";
  expected_audience = codes "dispatcher";
}

token_accepted :
    verify_cs_token jose 50 (codes "jws") keys policy ≡ ok (codes "sha256:ab", codes "sev")
unfolding verify_cs_token verify_jws check_freshness check_platform ◌>>=◌ check require hex fold_eq
token_accepted = refl

verify_cs_token-IsForRun_example :
    (t : CsToken) × Carries jose keys (codes "jws") t
    × IsForRun jose 50 policy t
    × (codes "sha256:ab" ≡ t.image_digest)
    × (codes "sev" ≡ cs_tee_type t.hw_model)
verify_cs_token-IsForRun_example =
    verify_cs_token-IsForRun jose 50 (codes "jws") keys policy token_accepted

abbrev issue : Bytes → Bytes → Option Bytes
issue bound n = some (bound ++ n)

abbrev accept : Bytes → Bytes → Bytes → Option Bytes
accept evidence bound n = if codes_eq evidence (bound ++ n) then some bound else none

abbrev serve : Bytes → Option Bytes
serve request = some (9 ∷ request)

abbrev dispatcher_side : Connection
dispatcher_side = record {
  exporter = some (2 ∷ []);
  inbox = frame (1 ∷ 2 ∷ run_nonce) ++ frame (9 ∷ 5 ∷ []);
  failing = λ i. none;
}

abbrev agent_side : Connection
agent_side = record {
  exporter = some (2 ∷ []);
  inbox = frame run_nonce ++ frame (5 ∷ []);
  failing = λ i. none;
}

honest :
    IsHonest
      (λ b. b)
      accept
      issue
      serve
      dispatcher_side
      agent_side
      (1 ∷ [])
      run_nonce
      (5 ∷ [])
      (1 ∷ 2 ∷ run_nonce)
      (9 ∷ 5 ∷ [])
      (1 ∷ 2 ∷ [])
unfolding bind_data max_evidence max_message
honest = record {
  exporter = 2 ∷ [];
  client_exporter = refl;
  server_exporter = refl;
  client_writes = λ i. refl;
  server_writes = λ i. refl;
  issued = refl;
  accepted = refl;
  handled = refl;
  nonce_size = refl;
  evidence_size = omega arith;
  request_size = omega arith;
  response_size = omega arith;
}

agent_heard : dispatcher_side.inbox ≡ (server_run (λ b. b) issue (1 ∷ []) serve agent_side).0
unfolding server_run frame max_message
agent_heard = refl

dispatcher_heard :
    agent_side.inbox
    ≡ (client_run (λ b. b) accept dispatcher_side (some (1 ∷ [])) run_nonce (5 ∷ [])).0
unfolding client_run frame max_evidence max_message
dispatcher_heard = refl

session_delivers_example :
    ((client_run (λ b. b) accept dispatcher_side (some (1 ∷ [])) run_nonce (5 ∷ [])).1
      ≡ ok (1 ∷ 2 ∷ [], 9 ∷ 5 ∷ []))
    × ((server_run (λ b. b) issue (1 ∷ []) serve agent_side).1 ≡ ok tt)
session_delivers_example =
    session_delivers (λ b. b) accept issue serve honest agent_heard dispatcher_heard

-- An agent whose evidence is for another nonce gets the nonce and nothing else.
abbrev replayed : Connection
replayed = record dispatcher_side { inbox = frame (1 ∷ 2 ∷ fill 32 8) }

client_run-IsVerified_example :
    (OnlyNonce run_nonce (client_run (λ b. b) accept replayed (some (1 ∷ [])) run_nonce (5 ∷ [])).0
      × ((e : SessionError) × ((client_run
              (λ b. b)
              accept
              replayed
              (some (1 ∷ []))
              run_nonce
              (5 ∷ [])).1
            ≡ err e)))
    ⊎ Exchange.IsVerified (λ b. b) accept replayed (some (1 ∷ [])) run_nonce
client_run-IsVerified_example =
    client_run-IsVerified (λ b. b) accept replayed (some (1 ∷ [])) run_nonce (5 ∷ [])

read_msg-frame_example : read_msg 10 (frame key ++ 3 ∷ []) ≡ ok (key, 3 ∷ [])
read_msg-frame_example = read_msg-frame 10 key (3 ∷ []) (omega arith) (omega arith)
