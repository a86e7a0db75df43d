-- ===== src/CloudVm/Confidential/Backends.antt =====
-- The two backends with their pinned validators.
use dispatcher.Prelude.{
  ℕ, String, ◌||◌, List, [], ◌∷◌, Option, none, some, ◌≡◌, ◌⊎◌, inl, inr, ok, err, refl, subst,
  Bool-cases, is_empty, str_eq,
}
use dispatcher.Types.{Time, Plan}
use dispatcher.Attest.Bytes.{Bytes, Text}
use dispatcher.Attest.Snp
use dispatcher.Attest.AzureSnp.{Pins, Tpm, Evidence, lookup}
use dispatcher.Attest.AzureSnp.Sound.{IsTrusted}
use dispatcher.Attest.Nitro.{Cose, NitroDoc}
use dispatcher.Attest.Nitro.Sound.{IsPinned}
use dispatcher.Attest.Session.{bind_data, read_msg, max_evidence}
use dispatcher.Attest.Transport.{Dialled}
use dispatcher.Attest.Validators.{Verify, nitro_verify, parse_evidence}
use dispatcher.Attest.Validators.Accepted.{azure_accepted, nitro_accepted}
use dispatcher.CloudVm.Confidential.{
  Calls, RunEnd, ConfidentialError, with_key, not_pinned, ami_unresolved,
}
use dispatcher.CloudVm.Confidential.Adapters.{
  azure_verify, execute_azure_snp, execute_nitro, azure_deps, nitro_deps, execute_with_ami,
  or_empty,
}
use dispatcher.CloudVm.Confidential.Guarded.{
  SentSafely, HeldBy, IsTidy, IsVerified, IsGuarded, bare, failed_guarded,
}
use dispatcher.CloudVm.Confidential.Ends.{IsHostKey, IsLeft-nil, IsLeft-IsHostKey, with_key_guarded}

-- At its end the run holds these files, with its VM if it succeeded; it sent at most a nonce and failed,
-- or its agent is as `P` says.
abbrev pub IsConfidential : Calls → List String → Type 0 → RunEnd → Type 0
IsConfidential c left P r =
    HeldBy left r.outcome r.held
    × ((SentSafely c r.sent × ((e : ConfidentialError) × (r.outcome ≡ err e))) ⊎ P)

IsConfidential-of :
    (c : Calls) (verify : Verify) {P : Type 0} (left : List String) (r : RunEnd)
    → (IsVerified c verify → P)
    → IsGuarded c verify left r
    → IsConfidential c left P r
IsConfidential-of c verify left r f (h, inl s) = (h, inl s)
IsConfidential-of c verify left r f (h, inr y) = (h, inr (f y))

module _ (c : Calls) (p : Plan) where
  module _ (lib : Snp.X509) (tpm : Tpm) (unmarshal_evidence : Bytes → Option Evidence)
      (base64_decode : Bytes → Option Bytes) (clock : ℕ → Time)
      (amd_roots : List lib.Certificate) where
    -- The first message of the agent that the run dialled is evidence, trusted under the pins, for this
    -- nonce and for the key and the exporter of this session.
    pub record HasTrusted (pins : Pins) (launch : Text) : Type 0 where
      pub url : String
      pub d : Dialled
      pub dialled : c.dial url ≡ some d
      pub exporter : Bytes
      pub spki : Bytes
      pub shown : d.peer_spki ≡ some spki
      pub exported : d.connection.exporter ≡ some exporter
      pub evidence : Bytes
      pub rest : Bytes
      pub received : read_msg max_evidence d.connection.inbox ≡ ok (evidence, rest)
      pub ev : Evidence
      pub parsed : parse_evidence unmarshal_evidence base64_decode evidence ≡ some ev
      pub trusted :
          IsTrusted lib tpm clock
            (record ev { channel_key = bind_data c.sha256 spki exporter })
            amd_roots
            d.run_nonce
            pins
            launch
            p.workload.requirements.confidential.min_tcb

    has_trusted :
        (pins : Pins) (launch : Text)
        → IsVerified c
            (azure_verify c p lib tpm unmarshal_evidence base64_decode clock amd_roots pins launch)
        → HasTrusted pins launch
    unfolding azure_verify
    has_trusted pins launch (url, (d, dialled, s)) =
        let a =
          azure_accepted lib tpm unmarshal_evidence base64_decode clock amd_roots pins launch
            p.workload.requirements.confidential.min_tcb s.evidence
            (bind_data c.sha256 s.spki s.exporter) d.run_nonce s.accepted in
        record {
          url = url;
          d = d;
          dialled = dialled;
          exporter = s.exporter;
          spki = s.spki;
          shown = s.shown;
          exported = s.handshake;
          evidence = s.evidence;
          rest = s.rest;
          received = s.received;
          ev = a.0;
          parsed = a.1;
          trusted = a.2;
        }

    -- An Azure confidential run that starts with nothing, where DestroyVM does not fail, and generateSSHKey
    -- and CreateVM leave nothing where they fail, holds nothing at its end if it failed and its VM alone
    -- if it succeeded. Unless the first message of the agent that it dialled is evidence, for this
    -- session, that is trusted under the pinned firmware and PCRs, it failed and sent at most a nonce.
    pub execute_azure_snp-IsConfidential :
        (tidy : IsTidy c) (ssh_user image : String) (pins : Pins) (launch : Text)
        → IsConfidential c [] (HasTrusted pins launch) (
            execute_azure_snp c p lib tpm unmarshal_evidence base64_decode clock amd_roots ssh_user
              image pins launch
              (bare []))
    unfolding execute_azure_snp
    execute_azure_snp-IsConfidential tidy ssh_user image pins launch =
        let verify =
          azure_verify c p lib tpm unmarshal_evidence base64_decode clock amd_roots pins launch in
        let deps =
          azure_deps c p lib tpm unmarshal_evidence base64_decode clock amd_roots ssh_user image in
        elim (Bool-cases (str_eq image "" || is_empty pins || is_empty launch)) [
          | inl y ↦ rw y (
              IsConfidential-of c verify [] _ (has_trusted pins launch)
                (failed_guarded c p tidy [] verify not_pinned))
          | inr n ↦
              let measured = or_empty (lookup 11 pins) in
              let r = with_key c p measured deps verify (bare []) in
              let (left, rests, g) = with_key_guarded c p tidy deps verify measured in
              let as_left = λ (fs : List String). IsGuarded c verify fs r in
              rw n (
                IsConfidential-of c verify [] r (has_trusted pins launch)
                  (subst as_left (IsLeft-nil c p deps left (λ key. refl) rests) g))
        ]

  module _ (cose : Cose) (base64_decode : Bytes → Option Bytes) (nitro_roots : cose.CertPool) where
    -- The first message of the agent that the run dialled is a document, pinned under the image, for
    -- this nonce, and its key is the commitment to this session.
    pub record HasPinned (pcr0 : Text) : Type 0 where
      pub url : String
      pub d : Dialled
      pub dialled : c.dial url ≡ some d
      pub exporter : Bytes
      pub spki : Bytes
      pub shown : d.peer_spki ≡ some spki
      pub exported : d.connection.exporter ≡ some exporter
      pub evidence : Bytes
      pub rest : Bytes
      pub received : read_msg max_evidence d.connection.inbox ≡ ok (evidence, rest)
      pub b : Bytes
      pub decoded : base64_decode evidence ≡ some b
      pub doc : NitroDoc
      pub pinned : IsPinned cose b nitro_roots d.run_nonce ((0, pcr0) ∷ []) doc
      pub bound : doc.public_key ≡ bind_data c.sha256 spki exporter

    has_pinned :
        (pcr0 : Text)
        → IsVerified c (nitro_verify cose base64_decode nitro_roots ((0, pcr0) ∷ []))
        → HasPinned pcr0
    has_pinned pcr0 (url, (d, dialled, s)) =
        let a =
          nitro_accepted cose base64_decode nitro_roots ((0, pcr0) ∷ []) s.evidence
            (bind_data c.sha256 s.spki s.exporter) d.run_nonce s.accepted in
        record {
          url = url;
          d = d;
          dialled = dialled;
          exporter = s.exporter;
          spki = s.spki;
          shown = s.shown;
          exported = s.handshake;
          evidence = s.evidence;
          rest = s.rest;
          received = s.received;
          b = a.0;
          decoded = a.1;
          doc = a.2.0;
          pinned = a.2.1;
          bound = a.2.2;
        }

    with_ami_guarded :
        (ami : Option String) (tidy : IsTidy c) (ssh_user : String) (pcr0 : Text)
        (instance_type : String)
        → (left : List String) × IsHostKey c left
          × IsGuarded c (nitro_verify cose base64_decode nitro_roots ((0, pcr0) ∷ [])) left (
              execute_with_ami c p cose base64_decode nitro_roots ami ssh_user pcr0 instance_type
                (bare []))
    unfolding execute_with_ami
    with_ami_guarded none tidy ssh_user pcr0 instance_type =
        ([], inl refl, failed_guarded c p tidy [] _ ami_unresolved)
    with_ami_guarded (some ami) tidy ssh_user pcr0 instance_type =
        let deps = nitro_deps c p cose base64_decode nitro_roots ssh_user ami instance_type in
        let (left, rests, g) = with_key_guarded c p tidy deps _ pcr0 in
        (left, IsLeft-IsHostKey c p deps left rests, g)

    -- An AWS Nitro run that starts with nothing, where DestroyVM does not fail, and generateSSHKey and
    -- CreateVM leave nothing where they fail, holds at its end its VM only if it succeeded, and no file
    -- but the known_hosts file that PinHostKey wrote. Unless the first message of the agent that it
    -- dialled is a document, for this session, that is pinned under the measured image, it failed and
    -- sent at most a nonce.
    pub execute_nitro-IsConfidential :
        (tidy : IsTidy c) (ssh_user eif_path proxy_bin : String) (pcr0 : Text)
        (instance_type : String)
        → (left : List String) × IsHostKey c left
          × IsConfidential c left (HasPinned pcr0) (
              execute_nitro c p cose base64_decode nitro_roots ssh_user eif_path proxy_bin pcr0
                instance_type
                (bare []))
    unfolding execute_nitro
    execute_nitro-IsConfidential tidy ssh_user eif_path proxy_bin pcr0 instance_type =
        let verify = nitro_verify cose base64_decode nitro_roots ((0, pcr0) ∷ []) in
        elim (Bool-cases (str_eq eif_path "" || str_eq proxy_bin "" || is_empty pcr0)) [
          | inl y ↦ rw y (
            [],
            inl refl,
            IsConfidential-of c verify [] _ (has_pinned pcr0)
                (failed_guarded c p tidy [] verify not_pinned),
          )
          | inr n ↦
              let (left, rests, g) =
                with_ami_guarded c.resolve_ami tidy ssh_user pcr0 instance_type in
              rw n (left, rests, IsConfidential-of c verify left _ (has_pinned pcr0) g)
        ]
