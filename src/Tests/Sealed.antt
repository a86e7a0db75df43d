-- ===== src/Tests/Sealed.antt =====
-- Confidential runs on the two clouds, with toy cryptography and a toy provider.
use dispatcher.Prelude.{
  arith, String, ◌>>=◌, check, require, List, ◌≡◌, true, false, [], ◌∷◌, ◌++◌, none, some, refl,
  pos, codes,
}
use dispatcher.Types.{Plan, WorkloadSpec}
use dispatcher.Attest.Bytes.{hex}
use dispatcher.Attest.Session.{frame, max_evidence, max_message}
use dispatcher.Attest.Transport.{AgentResult, Dialled}
use dispatcher.CloudVm.Adapter.{VmInfo}
use dispatcher.CloudVm.Confidential.{
  Calls, with_key, without_key, with_egress, execute_ssh_confidential, build_payload,
  provision_and_run, known_hosts,
}
use dispatcher.CloudVm.Confidential.Adapters.{
  execute_azure_snp, execute_nitro, execute_with_ami, nitro_deps,
}
use dispatcher.CloudVm.Confidential.Guarded.{IsTidy, bare}
use dispatcher.CloudVm.Confidential.Ends.{IsHostKey}
use dispatcher.CloudVm.Confidential.Backends.{
  IsConfidential, HasTrusted, HasPinned, execute_azure_snp-IsConfidential,
  execute_nitro-IsConfidential,
}
use dispatcher.Attest.Bytes.{Text}
use dispatcher.Confidential.{Pin, capture_gcp, all_hex, digest_prefix}
use dispatcher.Confidential.Captured.{marker, pin_of, IsPinned, capture_gcp-IsFaithful}
use dispatcher.Tests.Data.{workload, gpu_plan}
use dispatcher.Tests.Attested.{fill, run_nonce}
use dispatcher.Tests.Measured.{x509, tpm, cose, evidence, pins, clock}

-- The plan without its GPU.
abbrev small : WorkloadSpec
small = record workload {
  requirements = record workload.requirements {
    gpu = record { required = false; count = 0; model = ""; framework = "" };
  };
}

abbrev sealed_plan : Plan
sealed_plan = record gpu_plan { workload = small }

abbrev machine : VmInfo
machine = record {
  id = "i-1";
  ip = "1.2.3.5";
  ssh_port = 22;
  ssh_key_path = "/tmp/key";
  ssh_user = "ubuntu";
  instance_type = "";
}

abbrev agent_result : AgentResult
agent_result = record { exit_code = pos 0; stdout = []; stderr = []; outputs_tar_gz = [] }

abbrev dialled : Dialled
dialled = record {
  connection = record {
    exporter = some (2 ∷ []);
    inbox = frame (1 ∷ []) ++ frame (9 ∷ []);
    failing = λ i. none;
  };
  peer_spki = some (1 ∷ []);
  run_nonce = run_nonce;
}

abbrev calls : Calls
calls = record {
  read_dir = λ d. some ("main.py" ∷ ".git" ∷ []);
  tar_gz = λ fs. some (7 ∷ []);
  read_env = some [];
  runtime_command = λ r e. "python" ∷ e ∷ [];
  resolve_ami = some "ami-1";
  generate_key = some "/tmp/key";
  key_left = [];
  pub_key = λ k. "/tmp/key.pub";
  egress = some "1.2.3.4/32";
  create_vm = λ o. some machine;
  vms_left = [];
  destroys = λ id. true;
  pin_host_key = λ vm. some "/keys/known_hosts-plan-1";
  start_agent = λ vm. some "https://agent";
  wait_ready = λ url. true;
  dial = λ url. some dialled;
  sha256 = λ b. b;
  marshal = λ p. some p.source_tar_gz;
  unmarshal = λ b. some agent_result;
  now = 5;
}

tidy : IsTidy calls
tidy = record { destroys = λ id. refl; no_key = refl; no_vm = refl }

execute_azure_snp-IsConfidential_example :
    IsConfidential calls []
      (HasTrusted calls sealed_plan x509 tpm
        (λ b. some evidence)
        (λ b. some b)
        clock
        (tt ∷ [])
        pins
        (hex (fill 48 0)))
      (execute_azure_snp calls sealed_plan x509 tpm
        (λ b. some evidence)
        (λ b. some b)
        clock
        (tt ∷ [])
        "ubuntu"
        "ami"
        pins
        (hex (fill 48 0))
        (bare []))
execute_azure_snp-IsConfidential_example =
    execute_azure_snp-IsConfidential calls sealed_plan x509 tpm (λ b. some evidence) (λ b. some b)
      clock (tt ∷ []) tidy "ubuntu" "ami" pins (hex (fill 48 0))

execute_nitro-IsConfidential_example :
    (left : List String) × IsHostKey calls left
    × IsConfidential calls left (HasPinned calls sealed_plan cose (λ b. some b) tt (codes "ab")) (
        execute_nitro calls sealed_plan cose
          (λ b. some b)
          tt
          "ec2-user"
          "agent.eif"
          "proxy"
          (codes "ab")
          ""
          (bare []))
execute_nitro-IsConfidential_example =
    execute_nitro-IsConfidential calls sealed_plan cose (λ b. some b) tt tidy "ec2-user" "agent.eif"
      "proxy" (codes "ab") ""

-- The known_hosts file stays.
host_key_stays :
    (execute_nitro calls sealed_plan cose
      (λ b. some b)
      tt
      "ec2-user"
      "agent.eif"
      "proxy"
      (codes "ab")
      ""
      (bare [])).held.files
    ≡ "/keys/known_hosts-plan-1" ∷ []
unfolding execute_nitro execute_with_ami with_key without_key with_egress execute_ssh_confidential
    build_payload provision_and_run known_hosts nitro_deps max_evidence ◌>>=◌ require check
    max_message
host_key_stays = refl

capture_gcp-IsFaithful_example :
    (capture_gcp (codes "img" ++ marker ++ fill 64 97)
      ≡ some (pin_of (codes "img" ++ marker ++ fill 64 97) (digest_prefix ++ fill 64 97)))
    × ((ref : Text) (pin : Pin) → capture_gcp ref ≡ some pin → IsPinned ref pin)
unfolding all_hex
capture_gcp-IsFaithful_example =
    capture_gcp-IsFaithful (codes "img") (fill 64 97)
      (omega arith, (omega arith, (omega arith, tt))) refl refl
