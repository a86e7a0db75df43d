-- ===== src/Tests/Data.antt =====
-- A workload, a target, a price, a plan, a run and its surroundings.
use dispatcher.Prelude.{true, false, [], ◌∷◌, none, some, pos}
use dispatcher.Types.{
  job, script, python, container_package, WorkloadSpec, ShardSpec, TargetConfig, cloud_vm,
  CostEstimate, medium, Plan, optimize_cost, pass, ValidationResult, PolicyRequirement,
  Recommendation, completed, running, hour,
}
use dispatcher.Adapter.{RunHandle, FailureDetails}
use dispatcher.Approval.{Record, DecisionMsg, approved, denied}
use dispatcher.Run.State.{Run, new_run}
use dispatcher.Run.World.{World, Machine, ok, granted, ctx_done}

abbrev pub fan_out : ShardSpec
fan_out = record {
  count = 2;
  discover = "ls inputs";
  max_parallel = 0;
  outputs = [];
  on_shard_failure = "retry";
}

abbrev pub workload : WorkloadSpec
workload = record {
  name = "train";
  detected_kind = job;
  source = record { type = "local"; path = "." };
  runtime = python;
  entrypoints = "main.py" ∷ [];
  package_plan = record {
    type = container_package;
    dockerfile = "Dockerfile";
    build_required = true;
    base_image = "";
  };
  command = [];
  ports = [];
  requirements = record {
    cpu = "2";
    memory = "4Gi";
    arch = "";
    gpu = record { required = true; count = 1; model = "A100"; framework = "" };
    confidential = record {
      required = false;
      type = "";
      profile = "";
      attestation = "";
      measurements = [];
      min_tcb = 0;
    };
    sandbox = false;
  };
  secrets = [];
  data_deps = [];
  outputs = [];
  shard = fan_out;
  env = [];
}

abbrev pub target : TargetConfig
target = record {
  id = "aws-vm";
  kind = cloud_vm;
  enabled = true;
  capabilities = record {
    workload_kinds = job ∷ script ∷ [];
    resources = record {
      cpu = true;
      memory = true;
      gpu = record { supported = true; models = "t4" ∷ "a100" ∷ [] };
      confidential = record { supported = false; types = [] };
    };
    networking = record {
      public_endpoint = false;
      private_vpc_access = false;
      static_egress_ip = false;
    };
    accounting = record { cost_estimate = true; actual_billing = false; rate_card = "" };
    isolation = record { levels = "vm" ∷ [] };
    observability = record { logs = true; metrics = false; artifacts = true };
    not_supported = [];
  };
  ssh = none;
}

abbrev pub price : CostEstimate
price = record {
  value = 30000;
  confidence = medium;
  assumptions = [];
  exclusions = [];
  instance_type = "p4d";
  spot_ratio = 0;
}

abbrev pub checks : ValidationResult
checks = record {
  schema = pass;
  package_build = pass;
  target_capabilities = pass;
  credentials = pass;
  quota = pass;
  network = pass;
  policy = pass;
  cost_estimate = pass;
  cleanup_plan = pass;
}

abbrev pub recommendation : Recommendation
recommendation = record { target = "aws-vm"; runtime = "vm"; estimated_cost = price; reason = [] }

abbrev pub gpu_approval : PolicyRequirement
gpu_approval = record { name = "gpu-approval"; reason = "GPU workloads require approval" }

-- A budget of $1, and approvals to ask for.
abbrev pub gpu_plan : Plan
gpu_plan = record {
  metadata = record { id = "plan-1"; created_at = 1; created_by = "ann" };
  workload = workload;
  constraints = record {
    target_scope = "all";
    optimize_for = optimize_cost;
    max_estimated_cost_usd = 10000;
    max_duration = hour;
    require_gpu = "";
    target_name = "";
    region = "";
    watchdog_ttl = 0;
    retry_transient_failures = true;
    allow_ssh_from = "";
    spot = false;
  };
  recommendation = some recommendation;
  validation = checks;
  required_approvals = gpu_approval ∷ [];
}

abbrev pub instance_handle : RunHandle
instance_handle = record { id = "i-1"; target_id = "aws-vm"; state = ""; run_id = "run-1" }

abbrev pub consent_record : Record
consent_record = record {
  run_id = "run-1";
  requirements = gpu_approval ∷ [];
  requested_at = 1;
  decided_at = 2;
  decision = some approved;
  decider = "ann";
}

abbrev pub fresh_run : Run
fresh_run = new_run "run-1" gpu_plan recommendation 1

abbrev pub fresh : Machine
fresh = record { run = fresh_run; trace = []; sampler = none }

-- The same run an hour on, with an instance.
abbrev pub busy_machine : Machine
busy_machine = record {
  run = record fresh_run { state = running; started_at = 1; handle = some instance_handle };
  trace = [];
  sampler = none;
}

-- Everything outside succeeds.
abbrev pub calm : World
calm = record {
  on_validate = λ t. ok checks;
  on_gate = λ t. granted consent_record;
  on_prepare = λ t. ok _;
  on_execute = λ t. ok instance_handle;
  on_status = λ t. (completed, none);
  on_artifacts = λ t. ok [];
  on_cleanup = λ t. some (record { success = true; resources_cleaned = []; errors = [] });
  on_extend = λ t. true;
  is_durable = true;
  failure_reporter = none;
  marshal = λ h. none;
  clock = λ t. 5;
  ticks = λ t. [];
  wake = λ t. ctx_done;
  stopped = λ t. false;
  logging = true;
}

abbrev pub yes_msg : DecisionMsg
yes_msg = record { decision = approved; decider = "ann" }

abbrev pub no_msg : DecisionMsg
no_msg = record { decision = denied; decider = "external:bob" }

abbrev pub out_of_memory : FailureDetails
out_of_memory = record {
  exit_code = pos 137;
  signal = "KILL";
  oom_killed = true;
  reclaimed = false;
  message = "killed";
}
