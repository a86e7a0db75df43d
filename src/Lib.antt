-- ===== src/Lib.antt =====
-- dispatcher plans a workload, picks a target that can run it, asks for the approvals that the plan
-- needs, provisions, supervises the run with a cost budget and a watchdog, retrieves the outputs
-- and tears everything down. This library models the parts that decide, and proves what they
-- promise. Paths are from the repository's root.
--
-- Parts and files:
--   Types      internal/types: the data of workloads, targets, plans, shards and run states.
--   Adapter    internal/adapter/adapter.go (data) and classify.go (ClassifyFailure and
--              truncateFailureMessage); Resources has ResourceInfo and cloudvm/reprice.go.
--   Approval   internal/approval/store.go: the gate. Defs has settle, abandon and the two returns
--              of Wait; Wire has handleConn; Steps has the gate, its clients and Wait interleaved.
--   Run.State, Run.Machine
--              internal/run/state.go: the record of a run and its writers, and their
--              promises over any sequence of calls.
--   Run.Cost, Run.Sampler
--              internal/run/cost.go and startCostSampler of internal/run/executor.go.
--   Run.World, Run.Executor
--              internal/run/executor.go. World holds what answers from outside (the adapter, the
--              gate, the clock, the ticker, the context) as functions of the calls made so far;
--              a Machine is the run, the trace of calls and the running sampler. Cleanup has
--              attemptCleanup and collectArtifacts, Wait has waitForTerminal, Ephemeral has
--              executeEphemeral and its retry, Launch has Execute. Teardown, Holding, Release,
--              Polls, Consent and Recovery hold proofs.
--   Run.Record, Run.Reconnect
--              internal/run/store.go, spend.go and reconnect.go: the records, over a directory as
--              a list of files and a codec, and what ReconnectToRun makes of one.
--   Stop       internal/cli/stop.go: the command and its --force.
--   Gc         internal/cli/gc.go: which resources are destroyed, and what is reported.
--   CloudVm    internal/cloudvm: Catalog (catalog.go), Retry (retry.go), Adapter (Status, Cleanup and
--              DestroyResource of adapter.go) and Adapter.Execute (Execute, step by step, on the
--              VMs and files that the run holds). Adapter.Release, Catalog.Cheapest and
--              Retry.Attempts hold proofs.
--   CloudVm.Confidential
--              internal/cloudvm/confidential_sshvm.go, confidential_azuresnp.go and
--              confidential_nitro.go: Execute of the Azure and the Nitro adapter (Adapters) down to the
--              attested session. Guarded, Ends and Backends hold proofs.
--   Attest     internal/attest: Snp, Policy, Keys, AzureSnp, ConfidentialSpace and Nitro have the files of
--              these names (snp.go and so on), Validators has atls_validators.go, Matrix has
--              matrix.go, Session has atls/atls.go, Transport has the client of
--              agent/atls_transport.go. The other modules hold proofs: Sound says what a verifier
--              accepts, Grounded compares the matrix with the validators.
--   Confidential
--              internal/confidential: the registry of pins, capture.go and CheckPins. Captured and Pinned
--              hold proofs.
--   Cost       internal/cost: Parse, Estimator and WithHistory (estimator.go and spot.go), Median and
--              History (history.go). Estimator.Cases, Estimator.Pinned and History.Reads hold proofs.
--   Policy     internal/policy/gates.go: Evaluate.
--   Risk       internal/risk/analyze.go: Analyze.
--   Target     internal/target/match.go (CheckFeasibility) and registry.go (Registry).
--   Build      internal/plan/build.go: the order of the candidates, orderAndFilter and validate;
--              Inputs has the config file, --gpu and the texts, Compose has Build itself.
--   Shard      internal/shard/shard.go (Assign) and engine.go (Engine: the feeder and the workers
--              under a schedule of events, in which a worker's check of the context, its calls, its
--              result and its cancel are separate steps).
--   Prelude    shared names and lemmas. Tests has the theorems at concrete inputs.
--
-- How the parts meet: plan.Build assesses the registered targets, prices them with the estimator,
-- which looks up the catalog, and filters them by the budget; Evaluate fills the approvals of a
-- plan, Execute opens the gate for them, the gate's record goes on the run;
-- ClassifyFailure decides the executor's retry; the sampler shares the run with the executor and
-- ticks during each of its blocking calls. stop and gc read the records that the executor saves;
-- gc compares the plan in a record with the tag that Execute puts on a VM. A confidential run dials
-- its agent through Transport, which runs the client of the session with the validator of the backend
-- under the commitment to that session.
--
-- Conventions. Money is in 1/10000 of a dollar, the precision that roundCents keeps, and hourly
-- prices and monthly costs are in 1/1000000; floating-point rounding is not modelled. The ratio of a
-- spot price to the full one is cut to 1/10000, so that a tinier one counts as none. Memory is in
-- 1/1000 of a MiB. sort.Slice and the standard parsers are parameters with what they document. Times
-- are nanoseconds from the zero time, which is 0. A count that Go tests with `<= 0` is a natural
-- number. Letter case and white space are those of ASCII. Error texts are constructors. A method under
-- the run's mutex is one step.
-- What generateSSHKey, CreateVM and writeSSHWrapper leave when they fail is given with their answers;
-- other calls that fail leave nothing.
--
-- Attestation: bytes and texts that are compared are lists of numbers. X509, Tpm, Jose and Cose are
-- records of what the libraries of certificates, TPM quotes, tokens and COSE documents answer; hashes,
-- signatures and JSON are among them. A side of a session sees an inbox, the whole of what its peer
-- sends, and writes that may fail. A map of pins is a list of pairs, in the order in which it is walked.
--
-- Fuel: waitForTerminal takes fuel for its polls, one for each call of Status. As many as the
-- sleeps after which its select must take another branch, and one more, are enough.
--
-- Not modelled: panics of the adapter (only the recovery in Execute is there), the renewals of
-- the watchdog after the first, sockets, the codec of the records and their locks, the command lines
-- of the cloud providers and what ssh and rsync do, the fetching of live prices and of keys, TLS
-- itself, the server of the agent with its runner and archives, the file of the confidential pins, the
-- container of GCP Confidential Space, the planner that calls a language model, detection of workloads,
-- secrets, and the other commands of the command line.
pub mod Prelude
pub mod Types
pub mod Adapter
pub mod Approval
pub mod Run
pub mod Policy
pub mod Risk
pub mod Target
pub mod Shard
pub mod Build
pub mod CloudVm
pub mod Confidential
pub mod Cost
pub mod Attest
pub mod Gc
pub mod Stop
pub mod Tests
