-- ===== src/CloudVm/Confidential/Guarded.antt =====
-- A confidential run sends nothing but a nonce to a machine that is not verified, and leaves nothing
-- behind where it fails.
use dispatcher.Prelude.{
  String, true, List, [], ◌∷◌, some, ◌≡◌, ◌⊎◌, inl, inr, refl, sym, subst, Result, ok, err,
  Option-cases, Bool-cases,
}
use dispatcher.Types.{Plan}
use dispatcher.CloudVm.Adapter.{VmInfo, Holdings, destroy_vm}
use dispatcher.CloudVm.Adapter.Release.{without-one}
use dispatcher.Attest.Bytes.{Bytes}
use dispatcher.Attest.Session.Exchange
use dispatcher.Attest.Session.Exchange.{OnlyNonce}
use dispatcher.Attest.Validators.{Verify, AttestationResult, validate}
use dispatcher.Attest.Transport.{Payload, AgentResult, TransportError, Dialled, run_over_atls}
use dispatcher.Attest.Transport.Guarded.{Harmless, Reaches, run_over_atls_guarded}
use dispatcher.CloudVm.Confidential.{
  Calls, RunEnd, RunState, ConfidentialError, failed, torn_down, delivered, run_on,
  agent_not_started, unreachable,
}

-- At most the nonce of some connection was sent.
abbrev pub SentSafely : Calls → Bytes → Type 0
SentSafely c sent =
    (sent ≡ [])
    ⊎ ((url : String) × ((d : Dialled) × (c.dial url ≡ some d) × OnlyNonce d.run_nonce sent))

-- What the run holds at its end, beside the files: nothing, or the VM of the returned state.
abbrev pub HeldBy : List String → Result ConfidentialError RunState → Holdings → Type 0
HeldBy fs (err e) h = h ≡ record { vms = []; files = fs }
HeldBy fs (ok st) h = h ≡ record { vms = st.vm_id ∷ []; files = fs }

-- The run dialled an agent, and the validator accepted its evidence for this nonce and session.
abbrev pub IsVerified : Calls → Verify → Type 0
IsVerified c verify =
    (url : String) × ((d : Dialled) × (c.dial url ≡ some d)
      × Exchange.IsVerified c.sha256 (validate verify) d.connection d.peer_spki d.run_nonce)

-- The run failed, and sent at most a nonce, or its agent was verified.
abbrev pub Sends : Calls → Verify → RunEnd → Type 0
Sends c verify r =
    (SentSafely c r.sent × ((e : ConfidentialError) × (r.outcome ≡ err e))) ⊎ IsVerified c verify

abbrev pub IsGuarded : Calls → Verify → List String → RunEnd → Type 0
IsGuarded c verify fs r = HeldBy fs r.outcome r.held × Sends c verify r

abbrev pub holding : String → List String → Holdings
holding id fs = record { vms = id ∷ []; files = fs }

abbrev pub bare : List String → Holdings
bare fs = record { vms = []; files = fs }

-- Every destruction that is asked for succeeds, and a generateSSHKey or a CreateVM that fails leaves
-- nothing.
pub record IsTidy (c : Calls) : Type 0 where
  pub destroys : (id : String) → c.destroys id ≡ true
  pub no_key : c.key_left ≡ []
  pub no_vm : c.vms_left ≡ []

module _ (c : Calls) (p : Plan) (tidy : IsTidy c) (fs : List String) where
  pub step :
      (verify : Verify) (r r' : RunEnd)
      → r ≡ r'
      → IsGuarded c verify fs r'
      → IsGuarded c verify fs r
  step verify r r' q g = subst (IsGuarded c verify fs) (sym q) g

  pub failed_guarded :
      (verify : Verify) (e : ConfidentialError) → IsGuarded c verify fs (failed c p (bare fs) e)
  unfolding failed
  failed_guarded verify e = (refl, inl (inl refl, (e, refl)))

  abbrev with_vm : VmInfo → Holdings
  with_vm vm = record { vms = vm.id ∷ []; files = fs }

  destroyed : (vm : VmInfo) → destroy_vm (c.destroys vm.id) vm.id (with_vm vm) ≡ bare fs
  destroyed vm = rw (tidy.destroys vm.id, without-one vm.id) refl

  torn_down_guarded :
      (verify : Verify) (vm : VmInfo) (sent : Bytes) (e : ConfidentialError)
      → SentSafely c sent
      → IsGuarded c verify fs (torn_down c p vm (with_vm vm) sent e)
  unfolding torn_down
  torn_down_guarded verify vm sent e safe = (destroyed vm, inl (safe, (e, refl)))

  sent_safely : (url : String) (sent : Bytes) → Harmless (c.dial url) sent → SentSafely c sent
  sent_safely url sent (inl n) = inl n
  sent_safely url sent (inr (d, dialled, only)) = inr (url, (d, dialled, only))

  delivered_guarded :
      (verify : Verify) (vm : VmInfo) (url : String)
      (out : Bytes × Result TransportError (AttestationResult × AgentResult))
      → (Harmless (c.dial url) out.0 × ((e : TransportError) × (out.1 ≡ err e)))
        ⊎ Reaches c.sha256 c.marshal c.unmarshal (validate verify) (c.dial url)
      → IsGuarded c verify fs (delivered c p vm (with_vm vm) out)
  unfolding delivered torn_down
  delivered_guarded verify vm url (sent, err e) (inl (safe, f)) =
      torn_down_guarded verify vm sent _ (sent_safely url sent safe)
  delivered_guarded verify vm url (sent, err e) (inr y) = (destroyed vm, inr (url, y))
  delivered_guarded verify vm url (sent, ok (v, res)) (inl (safe, (e, f))) = absurd cc
  delivered_guarded verify vm url (sent, ok (v, res)) (inr y) = (refl, inr (url, y))

  pub run_on_guarded :
      (verify : Verify) (vm : VmInfo) (payload : Payload)
      → IsGuarded c verify fs (run_on c p verify vm payload (with_vm vm))
  unfolding run_on
  run_on_guarded verify vm payload =
      let m = with_vm vm in
      let refused = torn_down_guarded verify vm [] in
      elim (Option-cases (c.start_agent vm)) [
        | inl n ↦
            step verify _ (torn_down c p vm m [] agent_not_started) (rw (n, run_on) refl)
              (refused _ (inl refl))
        | inr (url, s) ↦
            let out =
              run_over_atls c.sha256 c.marshal c.unmarshal (validate verify) (c.dial url) payload in
            elim (Bool-cases (c.wait_ready url)) [
              | inl y ↦ step verify _ (delivered c p vm m out) (rw (s, y, run_on) refl) (
                  delivered_guarded verify vm url out (
                    run_over_atls_guarded c.sha256 c.marshal c.unmarshal (validate verify)
                      (c.dial url) payload))
              | inr n ↦
                  step verify _ (torn_down c p vm m [] unreachable) (rw (s, n, run_on) refl)
                    (refused _ (inl refl))
            ]
      ]
