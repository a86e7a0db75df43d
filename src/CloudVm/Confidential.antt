-- ===== src/CloudVm/Confidential.antt =====
-- The confidential runs of internal/cloudvm on Azure and on AWS Nitro: confidential_sshvm.go,
-- confidential_azuresnp.go, confidential_nitro.go and attestation.go, with the payload of
-- confidential_space_adapter.go. The provider, the file system and tar come from outside. The renewals
-- of the watchdog, which keep a Nitro parent alive while Execute runs, are left out, but not the
-- known_hosts file that they need. No name of a VM is kept, and resolveRegion has set the region.
pub mod Adapters
pub mod Guarded
pub mod Ends
pub mod Backends
use dispatcher.Prelude.{
  ℕ, ◌*◌, String, Bool, true, false, ◌&&◌, ◌||◌, not, List, [], ◌∷◌, ◌++◌, Option, none, some, ltb,
  filter, any, if◌then◌else◌, str_eq, is_empty, codes, codes_eq, to_lower, trim_space, Result, ok,
  err,
}
use dispatcher.Types.{Time, Duration, minute, Runtime, WorkloadSpec, Plan, ConfidentialRequirement}
use dispatcher.CloudVm.Catalog.{ProviderId}
use dispatcher.CloudVm.Adapter.{
  VmInfo, Holdings, add_files, remove_files, destroy_vm, key_files, without_all,
}
use dispatcher.Attest.Bytes.{Bytes, Text}
use dispatcher.Attest.Snp
use dispatcher.Attest.AzureSnp.{Pins, Tpm, Evidence, lookup}
use dispatcher.Attest.Nitro.{Cose}
use dispatcher.Attest.Validators.{
  Verify, AttestationResult, validate, azure_snp_verify, nitro_verify,
}
use dispatcher.Attest.Transport.{Payload, AgentResult, TransportError, Dialled, run_over_atls}

-- The VMOptions of a confidential VM.
pub record ConfidentialOptions : Type 0 where
  pub region : String
  pub image : String
  pub instance_type : String
  pub confidential_type : String
  pub enclave_enabled : Bool
  pub secure_boot_disabled : Bool
  pub ssh_key_path : String
  pub ssh_user : String
  pub watchdog : Duration
  pub run_tag : String

-- sshConfidentialDeps, without its calls.
pub record Deps : Type 0 where
  pub image : String
  pub confidential : String
  pub enclave : Bool
  pub secure_boot_off : Bool
  pub instance_type : String
  pub ssh_pub_key : String
  -- Where the renewal of the watchdog logs in; empty if the VM has no login.
  pub ssh_key_path : String
  pub ssh_user : String

pub record RunState : Type 0 where
  pub vm_id : String
  pub region : String
  pub outputs : List String
  pub result : AgentResult
  pub attestation : AttestationResult
  pub created_at : Time

pub data ConfidentialError : Type 0 where
  not_pinned ami_unresolved key_generation egress_unknown not_declared gpu_unmatched :
      ConfidentialError
  no_command source_unread tar_failed env_unread creation agent_not_started unreachable :
      ConfidentialError
  transport : TransportError → ConfidentialError

-- What is called on the way, and what it answers: `none` and `false` are errors. What generateSSHKey
-- and CreateVM leave behind when they fail is theirs to say; the others leave nothing.
pub record Calls : Type 0 where
  pub read_dir : String → Option (List String)
  pub tar_gz : List String → Option Bytes
  -- The .env file: nothing if there is none.
  pub read_env : Option Bytes
  pub runtime_command : Runtime → String → List String
  pub resolve_ami : Option String
  pub generate_key : Option String
  pub key_left : List String
  pub pub_key : String → String
  pub egress : Option String
  pub create_vm : ConfidentialOptions → Option VmInfo
  pub vms_left : List String
  pub destroys : String → Bool
  -- PinHostKey: the path of the known_hosts file that it wrote.
  pub pin_host_key : VmInfo → Option String
  -- The address of the agent.
  pub start_agent : VmInfo → Option String
  pub wait_ready : String → Bool
  pub dial : String → Option Dialled
  pub sha256 : Bytes → Bytes
  pub marshal : Payload → Option Bytes
  pub unmarshal : Bytes → Option AgentResult
  pub now : Time

-- What the run holds, what it sent, and how it ended.
pub record RunEnd : Type 0 where
  pub held : Holdings
  pub sent : Bytes
  pub outcome : Result ConfidentialError RunState

abbrev sha256_prefix : Text
sha256_prefix = codes "sha256:"

cut_prefix : Text → Text → Text → Text
cut_prefix whole [] rest = rest
cut_prefix whole (p ∷ ps) [] = whole
cut_prefix whole (p ∷ ps) (c ∷ cs) =
    if codes_eq (p ∷ []) (c ∷ []) then cut_prefix whole ps cs else whole

-- normalizeMeasurement.
unfoldable pub normalize_measurement : Text → Text
unfolding cut_prefix to_lower trim_space
normalize_measurement s =
    let lower = to_lower (trim_space s) in cut_prefix lower sha256_prefix lower

-- enforceWorkloadMeasurements.
unfoldable pub measurements_allow : ConfidentialRequirement → Text → Bool
unfolding normalize_measurement
measurements_allow req attested =
    is_empty req.measurements
    || any (λ m. codes_eq (normalize_measurement (codes m)) (normalize_measurement attested))
        req.measurements

abbrev skipped : List String
skipped = ".git" ∷ "node_modules" ∷ ".venv" ∷ "venv" ∷ "__pycache__" ∷ ".dispatcher" ∷ []

-- csCommand.
unfoldable pub cs_command : Calls → WorkloadSpec → Option (List String)
cs_command c w =
    if not (is_empty w.command)
    then some w.command
    else elim w.entrypoints [ [] ↦ none | e ∷ es ↦ some (c.runtime_command w.runtime e) ]

-- buildConfidentialPayload.
unfoldable pub build_payload : Calls → WorkloadSpec → Result ConfidentialError Payload
unfolding cs_command
build_payload c w = elim (cs_command c w) [
  | none ↦ err no_command
  | some command ↦ elim (c.read_dir w.source.path) [
    | none ↦ err source_unread
    | some entries ↦ elim (c.tar_gz (filter (λ e. not (any (str_eq e) skipped)) entries)) [
      | none ↦ err tar_failed
      | some source ↦ elim c.read_env [
        | none ↦ err env_unread
        | some dotenv ↦ ok (record {
          command = command;
          dotenv = dotenv;
          source_tar_gz = source;
          outputs = w.outputs;
        })
      ]
    ]
  ]
]

module _ (c : Calls) (p : Plan) where
  -- The options of executeSSHConfidential.
  unfoldable pub vm_options : Deps → ConfidentialOptions
  vm_options d = record {
    region = p.constraints.region;
    image = d.image;
    instance_type = d.instance_type;
    confidential_type = d.confidential;
    enclave_enabled = d.enclave;
    secure_boot_disabled = d.secure_boot_off;
    ssh_key_path = d.ssh_pub_key;
    ssh_user = d.ssh_user;
    watchdog = if ltb 0 p.constraints.watchdog_ttl then p.constraints.watchdog_ttl else 30 * minute;
    run_tag = p.metadata.id;
  }

  unfoldable pub failed : Holdings → ConfidentialError → RunEnd
  failed s e = record { held = s; sent = []; outcome = err e }

  -- The deferred DestroyVM.
  unfoldable pub torn_down : VmInfo → Holdings → Bytes → ConfidentialError → RunEnd
  torn_down vm s sent e = record {
    held = destroy_vm (c.destroys vm.id) vm.id s;
    sent = sent;
    outcome = err e;
  }

  unfoldable pub delivered :
      VmInfo → Holdings → Bytes × Result TransportError (AttestationResult × AgentResult) → RunEnd
  unfolding torn_down
  delivered vm s (sent, err e) = torn_down vm s sent (transport e)
  delivered vm s (sent, ok (v, res)) = record {
    held = s;
    sent = sent;
    outcome = ok (record {
      vm_id = vm.id;
      region = p.constraints.region;
      outputs = p.workload.outputs;
      result = res;
      attestation = v;
      created_at = c.now;
    });
  }

  -- The run on a VM: the agent is started and reached, and the payload goes over the session.
  unfoldable pub run_on : Verify → VmInfo → Payload → Holdings → RunEnd
  unfolding delivered torn_down run_over_atls validate
  run_on verify vm payload s = elim (c.start_agent vm) [
    | none ↦ torn_down vm s [] agent_not_started
    | some url ↦
        if c.wait_ready url
        then delivered vm s
            (run_over_atls c.sha256 c.marshal c.unmarshal (validate verify) (c.dial url) payload)
        else torn_down vm s [] unreachable
  ]

  -- The known_hosts file for the renewal of the watchdog; a failure to pin the key is only logged.
  unfoldable pub known_hosts : Deps → VmInfo → List String
  known_hosts d vm =
      if str_eq d.ssh_key_path ""
      then []
      else elim (c.pin_host_key vm) [ none ↦ [] | some path ↦ path ∷ [] ]

  unfoldable pub provision_and_run : Deps → Verify → Payload → Holdings → RunEnd
  unfolding vm_options failed run_on known_hosts
  provision_and_run d verify payload s = elim (c.create_vm (vm_options d)) [
    | none ↦ failed (record s { vms = s.vms ++ c.vms_left }) creation
    | some vm ↦
        run_on verify vm payload
          (add_files (known_hosts d vm) (record s { vms = s.vms ++ vm.id ∷ [] }))
  ]

  -- executeSSHConfidential.
  unfoldable pub execute_ssh_confidential : Deps → Verify → Holdings → RunEnd
  unfolding failed build_payload provision_and_run
  execute_ssh_confidential d verify s =
      if p.workload.requirements.gpu.required && str_eq d.instance_type ""
      then failed s gpu_unmatched
      else elim (build_payload c p.workload) [
        | err e ↦ failed s e
        | ok payload ↦ provision_and_run d verify payload s
      ]

  -- The rest of an adapter's Execute, with its key, once the egress address is known.
  unfoldable pub with_egress : Text → Deps → Verify → Holdings → RunEnd
  unfolding failed measurements_allow execute_ssh_confidential
  with_egress measurement deps verify s = elim c.egress [
    | none ↦ failed s egress_unknown
    | some cidr ↦
        if measurements_allow p.workload.requirements.confidential measurement
        then execute_ssh_confidential deps verify s
        else failed s not_declared
  ]

  -- The deferred removal of the key.
  unfoldable pub without_key : List String → RunEnd → RunEnd
  unfolding without_all
  without_key files r = record r { held = remove_files files r.held }

  unfoldable pub with_key : Text → (String → Deps) → Verify → Holdings → RunEnd
  unfolding failed with_egress without_key
  with_key measurement deps verify s = elim c.generate_key [
    | none ↦ failed (add_files c.key_left s) key_generation
    | some key ↦
        without_key (key_files key (c.pub_key key))
          (with_egress measurement (deps key) verify (add_files (key_files key (c.pub_key key)) s))
  ]
