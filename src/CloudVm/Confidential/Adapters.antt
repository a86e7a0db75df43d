-- ===== src/CloudVm/Confidential/Adapters.antt =====
-- Execute of the two adapters: confidential_azuresnp.go and confidential_nitro.go of internal/cloudvm.
use dispatcher.Prelude.{
  ℕ, String, true, false, ◌||◌, List, [], ◌∷◌, Option, none, some, if◌then◌else◌, str_eq, is_empty,
}
use dispatcher.Types.{Time, Plan}
use dispatcher.CloudVm.Adapter.{Holdings}
use dispatcher.Attest.Bytes.{Bytes, Text}
use dispatcher.Attest.Snp
use dispatcher.Attest.AzureSnp.{Pins, Tpm, Evidence, lookup}
use dispatcher.Attest.Nitro.{Cose}
use dispatcher.Attest.Validators.{Verify, azure_snp_verify, nitro_verify}
use dispatcher.CloudVm.Confidential.{
  Calls, Deps, RunEnd, not_pinned, ami_unresolved, failed, with_key,
}

abbrev default_nitro_instance_type : String
default_nitro_instance_type = "c6a.xlarge"

-- A map gives no text for a missing key.
abbrev pub or_empty : Option Text → Text
or_empty none = []
or_empty (some t) = t

module _ (c : Calls) (p : Plan) where
  -- AzureSNPConfidentialAdapter.Execute and executeAzureSNPConfidential; the pinned roots are AMD's.
  module _ (lib : Snp.X509) (tpm : Tpm) (unmarshal_evidence : Bytes → Option Evidence)
      (base64_decode : Bytes → Option Bytes) (clock : ℕ → Time)
      (amd_roots : List lib.Certificate) where
    unfoldable pub azure_verify : Pins → Text → Verify
    unfolding azure_snp_verify
    azure_verify pins launch =
        azure_snp_verify lib tpm unmarshal_evidence base64_decode clock amd_roots pins launch
          p.workload.requirements.confidential.min_tcb

    unfoldable pub azure_deps : String → String → String → Deps
    azure_deps ssh_user image key = record {
      image = image;
      confidential = "sev-snp";
      enclave = false;
      secure_boot_off = true;
      instance_type = "";
      ssh_pub_key = c.pub_key key;
      ssh_key_path = "";
      ssh_user = ssh_user;
    }

    unfoldable pub execute_azure_snp : String → String → Pins → Text → Holdings → RunEnd
    unfolding failed with_key azure_verify azure_deps lookup
    execute_azure_snp ssh_user image pins launch s =
        if str_eq image "" || is_empty pins || is_empty launch
        then failed c p s not_pinned
        else with_key c p (or_empty (lookup 11 pins)) (azure_deps ssh_user image)
            (azure_verify pins launch) s

  -- AWSNitroConfidentialAdapter.Execute and executeNitroConfidential; the pinned root is AWS's.
  module _ (cose : Cose) (base64_decode : Bytes → Option Bytes) (nitro_roots : cose.CertPool) where
    unfoldable pub nitro_deps : String → String → String → String → Deps
    nitro_deps ssh_user ami instance_type key = record {
      image = ami;
      confidential = "";
      enclave = true;
      secure_boot_off = false;
      instance_type =
          if str_eq instance_type "" then default_nitro_instance_type else instance_type;
      ssh_pub_key = c.pub_key key;
      ssh_key_path = key;
      ssh_user = ssh_user;
    }

    unfoldable pub execute_with_ami : Option String → String → Text → String → Holdings → RunEnd
    unfolding failed with_key nitro_verify nitro_deps
    execute_with_ami none ssh_user pcr0 instance_type s = failed c p s ami_unresolved
    execute_with_ami (some ami) ssh_user pcr0 instance_type s =
        with_key c p pcr0 (nitro_deps ssh_user ami instance_type)
          (nitro_verify cose base64_decode nitro_roots ((0, pcr0) ∷ [])) s

    unfoldable pub execute_nitro : String → String → String → Text → String → Holdings → RunEnd
    unfolding failed execute_with_ami
    execute_nitro ssh_user eif_path proxy_bin pcr0 instance_type s =
        if str_eq eif_path "" || str_eq proxy_bin "" || is_empty pcr0
        then failed c p s not_pinned
        else execute_with_ami c.resolve_ami ssh_user pcr0 instance_type s
