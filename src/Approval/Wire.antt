-- ===== src/Approval/Wire.antt =====
-- handleConn: one message over the socket, and the reply.
use Prim.Native.String.{◌++◌ as text_append}
use text.Mathlib.Text.{starts_with}
use text.Mathlib.TextPositions.{starts_with-append}
use dispatcher.Prelude.{
  String, true, ◌||◌, Option, none, some, ◌≡◌, ◌≢◌, ◌⊎◌, inl, inr, arith, str_eq, if◌then◌else◌,
  Bool-cases,
}
use dispatcher.Approval.Defs.{Decision, approved, denied, Gate, settle}

-- wireMsg: every field is what the client wrote.
pub record WireMsg : Type 0 where
  pub action : String
  pub decision : String
  pub decider : String

pub data Refusal : Type 0 where
  invalid_decision unknown_action : String → Refusal
  already_decided : Refusal

-- wireReply: status "ok", or "error" with a reason.
pub data WireReply : Type 0 where
  ok : WireReply
  error : Refusal → WireReply

-- msg.Decision, if it is one of the two constants.
unfoldable pub parse_decision : String → Option Decision
parse_decision s =
    if str_eq s "approved" then some approved else if str_eq s "denied" then some denied else none

abbrev unnamed : String → String
unnamed decider = if str_eq decider "" then "unknown" else decider

-- The decider as the audit record names it.
unfoldable pub external_decider : String → String
external_decider decider =
    let name = unnamed decider in
    if starts_with name "external:" then name else text_append "external:" name

-- The action "decide", or none.
decide : Gate → WireMsg → Gate × WireReply
unfolding parse_decision external_decider
decide g msg = elim (parse_decision msg.decision) [
  | none ↦ (g, error (invalid_decision msg.decision))
  | some d ↦
      let (g', accepted) =
        settle g (record { decision = d; decider = external_decider msg.decider }) in
      (g', if accepted then ok else error already_decided)
]

-- `none` is a message that did not decode: the connection closes with no reply.
unfoldable pub handle_conn : Gate → Option WireMsg → Gate × Option WireReply
unfolding decide
handle_conn g none = (g, none)
handle_conn g (some msg) =
    if str_eq msg.action "ping"
    then (g, some ok)
    else if str_eq msg.action "decide" || str_eq msg.action ""
    then (let (g', reply) = decide g msg in (g', some reply))
    else (g, some (error (unknown_action msg.action)))

-- Every decider that comes over the socket is recorded as external.
pub external_decider-prefix : (s : String) → starts_with (external_decider s) "external:" ≡ true
unfolding external_decider
external_decider-prefix s = elim (Bool-cases (starts_with (unnamed s) "external:")) [
  | inl h ↦ rw h h
  | inr h ↦ rw h (starts_with-append "external:" (unnamed s))
]

-- The name that stands for a client: its own if it begins with "external:", and otherwise its own, or
-- "unknown" where it has none, after "external:".
abbrev pub IsExternalName : String → String → Type 0
IsExternalName decider name =
    ((starts_with decider "external:" ≡ true) × (name ≡ decider))
    ⊎ ((decider ≡ "") × (name ≡ "external:unknown"))
    ⊎ ((decider ≢ "") × (name ≡ text_append "external:" decider))

-- A client is answered with an error only if its message changed nothing.
pub handle_conn_error_unchanged :
    (g : Gate) (msg : WireMsg) (e : Refusal)
    → (handle_conn g (some msg)).1 ≡ some (error e)
    → (handle_conn g (some msg)).0 ≡ g
unfolding handle_conn settle
handle_conn_error_unchanged g msg e h = ground arith

abbrev pub decision_name : Decision → String
decision_name approved = "approved"
decision_name denied = "denied"
