-- ===== src/CloudVm/Adapter.antt =====
-- internal/cloudvm/adapter.go: the adapter of the cloud VMs. What the provider's CLI, ssh, rsync and
-- the clock answer comes from outside, as do confidentialAttestationPreflight and
-- verifyConfidential. The files and VMs are those of one run.
pub mod Execute
pub mod Release
use dispatcher.Prelude.{
  ℕ, ℤ, pos, negsuc, zero, suc, ◌*◌, ◌/◌, String, Bool, true, false, ◌&&◌, ◌||◌, not, List, [], ◌∷◌,
  ◌++◌, Option, none, some, ◌==◌, ltb, if◌then◌else◌, str_eq, filter,
}
use dispatcher.Types.{
  RunState, running, completed, execution_failed, Time, Duration, minute, WorkloadSpec, Plan,
}
use dispatcher.Adapter.{CleanupResult}
use dispatcher.Adapter.Resources.{ResourceInfo, ResourceKind, dispatcher_owned, is_instance}
use dispatcher.CloudVm.Catalog.{ProviderId}

pub data VmState : Type 0 where
  vm_pending vm_running vm_stopping vm_terminated vm_error : VmState

pub record VmInfo : Type 0 where
  pub id : String
  pub ip : String
  pub ssh_port : ℕ
  pub ssh_key_path : String
  pub ssh_user : String
  pub instance_type : String

pub record VmOptions : Type 0 where
  pub name : String
  pub region : String
  pub instance_type : String
  pub ssh_key_path : String
  pub user_data : String
  pub allow_ssh_from : String
  pub spot : Bool
  pub run_tag : String
  pub confidential_type : String
  pub ssh_user : String

pub record Attestation : Type 0 where
  pub type : String
  pub verified : Bool

pub record CloudVmState : Type 0 where
  pub provider : ProviderId
  pub vm_id : String
  pub ip : String
  pub ssh_key_path : String
  pub ssh_key_managed : Bool
  pub ssh_user : String
  pub ssh_port : ℕ
  pub region : String
  pub instance_type : String
  pub known_hosts_path : String
  pub ssh_wrapper : String
  pub remote_dir : String
  pub log_path : String
  pub workload_pid : ℕ
  pub created_at : Time
  pub outputs : List String
  pub spot : Bool
  pub reclaimed : Bool
  pub last_exit_code : ℤ
  pub last_exit_code_read : Bool
  pub attestation : Option Attestation

-- What the run holds: VMs at the provider, and files in the state directory.
pub record Holdings : Type 0 where
  pub vms : List String
  pub files : List String

abbrev pub without : String → List String → List String
without x xs = filter (λ y. not (str_eq y x)) xs

abbrev pub add_files : List String → Holdings → Holdings
add_files fs s = record s { files = s.files ++ fs }

-- os.Remove of each, with its error ignored.
unfoldable pub without_all : List String → List String → List String
without_all [] fs = fs
without_all (x ∷ xs) fs = without_all xs (without x fs)

abbrev pub remove_files : List String → Holdings → Holdings
unfolding without_all
remove_files fs s = record s { files = without_all fs s.files }

-- DestroyVM, which may fail.
abbrev pub destroy_vm : Bool → String → Holdings → Holdings
destroy_vm succeeds id s = if succeeds then record s { vms = without id s.vms } else s

abbrev pub key_files : String → String → List String
key_files key pub_key = key ∷ pub_key ∷ []

abbrev pub when_named : String → List String
when_named path = if str_eq path "" then [] else path ∷ []

-- The files that Cleanup removes; `pub_key` is the path with .pub.
unfoldable pub own_files : (String → String) → CloudVmState → List String
own_files pub_key st =
    (if st.ssh_key_managed then key_files st.ssh_key_path (pub_key st.ssh_key_path) else [])
    ++ (when_named st.known_hosts_path ++ when_named st.ssh_wrapper)

-- CloudVMAdapter.Cleanup, with the error of DestroyVM if it fails.
unfoldable pub cleanup :
    (String → String) → Option String → CloudVmState → Holdings → Holdings × CleanupResult
unfolding own_files without_all
cleanup pub_key (some e) st s = (
  destroy_vm false st.vm_id s,
  record { success = false; resources_cleaned = []; errors = e ∷ [] },
)
cleanup pub_key none st s = (
  remove_files (own_files pub_key st) (destroy_vm true st.vm_id s),
  record { success = true; resources_cleaned = st.vm_id ∷ []; errors = [] },
)

-- What the ssh liveness probe says, with the exit-code file, trimmed.
pub data Probe : Type 0 where
  ssh_failed still_running : Probe
  done : String → Probe

-- The exit code is read: `scan` is Sscanf of a number, 0 if there is none.
unfoldable pub read_exit : (String → ℤ) → String → CloudVmState → CloudVmState × RunState
read_exit scan text st =
    if str_eq text ""
    then (record st { last_exit_code = negsuc 0; last_exit_code_read = false }, execution_failed)
    else (
      record st { last_exit_code = scan text; last_exit_code_read = true },
      elim (scan text) [
        | pos n ↦ if n == 0 then completed else execution_failed
        | negsuc n ↦ execution_failed
      ],
    )

probed : (String → ℤ) → Probe → CloudVmState → CloudVmState × RunState × Bool
unfolding read_exit
probed scan ssh_failed st = (st, running, false)
probed scan still_running st = (st, running, true)
probed scan (done text) st = let (st', s) = read_exit scan text st in (st', s, true)

-- CloudVMAdapter.Status, with what GetVM answers; the Boolean says that there is no error.
unfoldable pub status :
    (String → ℤ) → Option VmState → Probe → CloudVmState → CloudVmState × RunState × Bool
unfolding probed
status scan none probe st = (st, execution_failed, false)
status scan (some vm_terminated) probe st =
    ((if st.spot then record st { reclaimed = true } else st), execution_failed, true)
status scan (some _) probe st =
    if ltb 0 st.workload_pid then probed scan probe st else (st, running, true)

pub data DestroyEnd : Type 0 where
  not_owned cannot_destroy_kind : DestroyEnd
  -- DestroyResource of a provider that enumerates, or DestroyVM.
  by_enumerator by_destroy_vm : Bool → DestroyEnd

-- CloudVMAdapter.DestroyResource: `enumerator` is the provider's answer if it enumerates.
unfoldable pub destroy_resource :
    Option (ResourceInfo → Bool) → (String → Bool) → ResourceInfo → DestroyEnd
destroy_resource enumerator destroys res =
    if not (dispatcher_owned res) then not_owned else elim enumerator [
      | some f ↦ by_enumerator (f res)
      | none ↦
          if not (is_instance res.kind)
          then cannot_destroy_kind
          else by_destroy_vm (destroys res.resource_id)
    ]
