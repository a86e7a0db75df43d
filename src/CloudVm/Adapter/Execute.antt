-- ===== src/CloudVm/Adapter/Execute.antt =====
-- CloudVMAdapter.Execute of internal/cloudvm/adapter.go, with its two deferred calls.
use dispatcher.Prelude.{
  ℕ, ◌*◌, pos, String, Bool, false, ◌&&◌, not, List, [], ◌∷◌, ◌++◌, Option, none, some, ltb,
  if◌then◌else◌, str_eq,
}
use dispatcher.Types.{Time, Duration, minute, WorkloadSpec, Plan, ConfidentialRequirement}
use dispatcher.CloudVm.Catalog.{ProviderId}
use dispatcher.CloudVm.Adapter.{
  VmInfo, VmOptions, Attestation, CloudVmState, Holdings, add_files, remove_files, destroy_vm,
  key_files, without_all,
}

pub record Config : Type 0 where
  pub provider_id : ProviderId
  pub region : String
  pub ssh_user : String

-- What is called on the way, and what it answers: `none` and `false` are errors. What generateSSHKey,
-- CreateVM and writeSSHWrapper leave behind when they fail is theirs to say; the others leave nothing.
pub record Calls : Type 0 where
  pub generate_key : Option String
  pub key_left : List String
  pub pub_key : String → String
  pub vm_name : String
  pub remote_dir : String
  pub log_path : String
  pub cloud_init : Duration → String → String
  pub attestable : WorkloadSpec → ProviderId → Bool
  pub create_vm : VmOptions → Option VmInfo
  pub vms_left : List String
  pub destroys : String → Bool
  pub wait_ready : Bool
  pub pin_host_key : Option String
  pub wait_auth : Bool
  pub write_wrapper : Option String
  pub wrapper_left : Option String
  -- No attestation is asked for, or it is accepted.
  pub verify : Option (Option Attestation)
  pub rsync : Bool
  pub start_workload : Option ℕ
  pub now : Time

pub data ExecError : Type 0 where
  key_generation gpu_unmatched not_attestable creation unreachable host_key : ExecError
  authentication wrapper attestation transfer start : ExecError

pub data ExecEnd : Type 0 where
  failed : ExecError → ExecEnd
  launched : CloudVmState → ExecEnd

abbrev pub path_list : Option String → List String
path_list none = []
path_list (some path) = path ∷ []

abbrev or_default : String → String → String
or_default given usual = if str_eq given "" then usual else given

unfoldable pub priced_instance : Plan → String
priced_instance p = elim p.recommendation [
  | none ↦ ""
  | some rec ↦ rec.estimated_cost.instance_type
]

unfoldable pub confidential_type : ConfidentialRequirement → String
confidential_type c = if c.required then or_default c.type "any" else ""

abbrev pub watchdog_ttl : Plan → Duration
watchdog_ttl p =
    if ltb 0 p.constraints.watchdog_ttl then p.constraints.watchdog_ttl else 30 * minute

module _ (c : Calls) (cfg : Config) (p : Plan) where
  abbrev ssh_user : String
  ssh_user = or_default cfg.ssh_user "root"

  -- applyRegion of the plan's region, or of the adapter's own.
  abbrev region : String
  region = or_default p.constraints.region cfg.region

  -- buildVMOptions, with the user that Execute adds.
  unfoldable pub build_vm_options : String → VmOptions
  unfolding priced_instance confidential_type
  build_vm_options pub_key_path = record {
    name = c.vm_name;
    region = region;
    instance_type = priced_instance p;
    ssh_key_path = pub_key_path;
    user_data = c.cloud_init (watchdog_ttl p) ssh_user;
    allow_ssh_from = p.constraints.allow_ssh_from;
    spot = p.constraints.spot;
    run_tag = p.metadata.id;
    confidential_type = confidential_type p.workload.requirements.confidential;
    ssh_user = ssh_user;
  }

  -- validateGPUInstance.
  unfoldable pub no_gpu_instance : VmOptions → Bool
  no_gpu_instance opts = p.workload.requirements.gpu.required && str_eq opts.instance_type ""

  -- The state of a VM that answers.
  unfoldable pub new_state : VmInfo → VmOptions → String → CloudVmState
  new_state vm opts key = record {
    provider = cfg.provider_id;
    vm_id = vm.id;
    ip = vm.ip;
    ssh_key_path = or_default vm.ssh_key_path key;
    ssh_key_managed = str_eq vm.ssh_key_path "";
    ssh_user = or_default vm.ssh_user ssh_user;
    ssh_port = if ltb 0 vm.ssh_port then vm.ssh_port else 22;
    region = region;
    instance_type = or_default vm.instance_type opts.instance_type;
    known_hosts_path = "";
    ssh_wrapper = "";
    remote_dir = c.remote_dir;
    log_path = c.log_path;
    workload_pid = 0;
    created_at = c.now;
    outputs = p.workload.outputs;
    spot = opts.spot;
    reclaimed = false;
    last_exit_code = pos 0;
    last_exit_code_read = false;
    attestation = none;
  }

  -- An error return before there is a VM: the deferred removal of the files.
  abbrev abort : List String → ExecError → Holdings → Holdings × ExecEnd
  unfolding without_all
  abort early e s = (remove_files early s, failed e)

  -- An error return after that: the deferred destruction of the VM comes first.
  abbrev abandon : VmInfo → List String → ExecError → Holdings → Holdings × ExecEnd
  unfolding without_all
  abandon vm early e s = abort early e (destroy_vm (c.destroys vm.id) vm.id s)

  unfoldable pub upload_and_start :
      VmInfo → List String → CloudVmState → Holdings → Holdings × ExecEnd
  unfolding without_all
  upload_and_start vm early st s =
      if not c.rsync then abandon vm early transfer s else elim c.start_workload [
        | none ↦ abandon vm early start s
        | some pid ↦ (s, launched (record st { workload_pid = pid }))
      ]

  unfoldable pub attest : VmInfo → List String → CloudVmState → Holdings → Holdings × ExecEnd
  unfolding upload_and_start without_all
  attest vm early st s = elim c.verify [
    | none ↦ abandon vm early attestation s
    | some att ↦ upload_and_start vm early (record st { attestation = att }) s
  ]

  unfoldable pub wrap : VmInfo → List String → CloudVmState → Holdings → Holdings × ExecEnd
  unfolding attest without_all
  wrap vm early st s =
      if not c.wait_auth then abandon vm early authentication s else elim c.write_wrapper [
        | none ↦ abandon vm early wrapper (add_files (path_list c.wrapper_left) s)
        | some path ↦
            attest vm (early ++ path ∷ []) (record st { ssh_wrapper = path })
              (add_files (path ∷ []) s)
      ]

  unfoldable pub pin : VmInfo → List String → CloudVmState → Holdings → Holdings × ExecEnd
  unfolding wrap without_all
  pin vm early st s = elim c.pin_host_key [
    | none ↦ abandon vm early host_key s
    | some path ↦
        wrap vm (early ++ path ∷ []) (record st { known_hosts_path = path })
          (add_files (path ∷ []) s)
  ]

  -- With a VM: an identity of the provider's own takes the place of the generated key.
  unfoldable pub provision : VmInfo → VmOptions → String → Holdings → Holdings × ExecEnd
  unfolding new_state pin without_all
  provision vm opts key s =
      let keys = key_files key (c.pub_key key) in
      let st = new_state vm opts key in
      if not c.wait_ready
      then abandon vm keys unreachable s
      else if str_eq vm.ssh_key_path ""
      then pin vm keys st s
      else pin vm [] st (remove_files keys s)

  -- With a key.
  unfoldable pub create : String → Holdings → Holdings × ExecEnd
  unfolding build_vm_options provision without_all no_gpu_instance
  create key s =
      let keys = key_files key (c.pub_key key) in
      let opts = build_vm_options (c.pub_key key) in
      if no_gpu_instance opts
      then abort keys gpu_unmatched s
      else if not (c.attestable p.workload cfg.provider_id)
      then abort keys not_attestable s
      else elim (c.create_vm opts) [
        | none ↦ abort keys creation (record s { vms = s.vms ++ c.vms_left })
        | some vm ↦ provision vm opts key (record s { vms = s.vms ++ vm.id ∷ [] })
      ]

  unfoldable pub execute : Holdings → Holdings × ExecEnd
  unfolding create
  execute s = elim c.generate_key [
    | none ↦ (add_files c.key_left s, failed key_generation)
    | some key ↦ create key (add_files (key_files key (c.pub_key key)) s)
  ]
