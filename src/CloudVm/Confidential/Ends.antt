-- ===== src/CloudVm/Confidential/Ends.antt =====
-- What a confidential run leaves of its files: its key is removed, a pinned host key is not.
use dispatcher.Prelude.{
  String, ◌&&◌, List, [], ◌∷◌, ◌++◌, some, ◌≡◌, ◌⊎◌, inl, inr, refl, sym, ap, ◌∙◌, subst, Result,
  ok, err, Option-cases, Bool-cases, Result-cases, str_eq,
}
use dispatcher.Types.{Plan}
use dispatcher.CloudVm.Adapter.{VmInfo, Holdings, without_all, remove_files, key_files}
use dispatcher.CloudVm.Adapter.Release.{
  without_all_self, without_all-own, without_all-nil, without_all-single,
}
use dispatcher.Attest.Bytes.{Text}
use dispatcher.Attest.Validators.{Verify}
use dispatcher.Attest.Transport.{Payload}
use dispatcher.CloudVm.Confidential.{
  Calls, Deps, RunEnd, RunState, ConfidentialError, failed, run_on, known_hosts, provision_and_run,
  execute_ssh_confidential, with_egress, with_key, without_key, creation, gpu_unmatched,
  egress_unknown, not_declared, key_generation, build_payload, measurements_allow, vm_options,
}
use dispatcher.CloudVm.Confidential.Guarded.{
  HeldBy, IsTidy, IsGuarded, bare, holding, step, failed_guarded, run_on_guarded,
}

-- The run is guarded, with the known_hosts file of a VM beside the files that were there.
abbrev EndsGuarded : Calls → Plan → Deps → Verify → List String → RunEnd → Type 0
EndsGuarded c p d verify fs r =
    (gs : List String) × ((gs ≡ fs) ⊎ ((vm : VmInfo) × (gs ≡ fs ++ known_hosts c p d vm)))
    × IsGuarded c verify gs r

-- Nothing, or the known_hosts file of a VM.
abbrev pub IsHostKey : Calls → List String → Type 0
IsHostKey c fs =
    (fs ≡ [])
    ⊎ ((vm : VmInfo) × ((path : String) × (c.pin_host_key vm ≡ some path) × (fs ≡ path ∷ [])))

-- What is left of the files: at most the known_hosts file of a VM.
abbrev pub IsLeft : Calls → Plan → (String → Deps) → List String → Type 0
IsLeft c p deps left =
    (left ≡ [])
    ⊎ ((key : String) × ((vm : VmInfo) × (left
            ≡ without_all (key_files key (c.pub_key key)) (known_hosts c p (deps key) vm))))

module _ (c : Calls) (p : Plan) (tidy : IsTidy c) (fs : List String) (d : Deps)
    (verify : Verify) where
  unpinned : (r : RunEnd) → IsGuarded c verify fs r → EndsGuarded c p d verify fs r
  unpinned r g = (fs, inl refl, g)

  ended : (r r' : RunEnd) → r ≡ r' → EndsGuarded c p d verify fs r' → EndsGuarded c p d verify fs r
  ended r r' q g = subst (EndsGuarded c p d verify fs) (sym q) g

  failed_ends : (e : ConfidentialError) → EndsGuarded c p d verify fs (failed c p (bare fs) e)
  failed_ends e = unpinned _ (failed_guarded c p tidy fs verify e)

  provision_and_run_ends :
      (payload : Payload)
      → EndsGuarded c p d verify fs (provision_and_run c p d verify payload (bare fs))
  unfolding provision_and_run
  provision_and_run_ends payload = elim (Option-cases (c.create_vm (vm_options c p d))) [
    | inl n ↦
        ended _ (failed c p (bare fs) creation) (rw (n, provision_and_run, tidy.no_vm) refl)
          (failed_ends _)
    | inr (vm, y) ↦
        let gs = fs ++ known_hosts c p d vm in
        ended _ (run_on c p verify vm payload (holding vm.id gs)) (rw (y, provision_and_run) refl)
          (gs, inr (vm, refl), run_on_guarded c p tidy gs verify vm payload)
  ]

  execute_ends : EndsGuarded c p d verify fs (execute_ssh_confidential c p d verify (bare fs))
  unfolding execute_ssh_confidential
  execute_ends =
      elim (Bool-cases (p.workload.requirements.gpu.required && str_eq d.instance_type "")) [
        | inl y ↦ rw y (failed_ends gpu_unmatched)
        | inr n ↦ elim (Result-cases (build_payload c p.workload)) [
          | inl (payload, y) ↦ rw (n, y) (provision_and_run_ends payload)
          | inr (e, y) ↦ rw (n, y) (failed_ends e)
        ]
      ]

  with_egress_ends :
      (measurement : Text)
      → EndsGuarded c p d verify fs (with_egress c p measurement d verify (bare fs))
  unfolding with_egress
  with_egress_ends measurement = elim (Option-cases c.egress) [
    | inl n ↦
        ended _ (failed c p (bare fs) egress_unknown) (rw (n, with_egress) refl) (failed_ends _)
    | inr (cidr, y) ↦
        elim (Bool-cases (measurements_allow p.workload.requirements.confidential measurement)) [
          | inl a ↦
              ended _ (execute_ssh_confidential c p d verify (bare fs))
                (rw (y, a, with_egress) refl) execute_ends
          | inr n ↦
              ended _ (failed c p (bare fs) not_declared) (rw (y, n, with_egress) refl)
                (failed_ends _)
        ]
  ]

remove_held :
    (fs gs left : List String) (o : Result ConfidentialError RunState) (h : Holdings)
    → without_all fs gs ≡ left
    → HeldBy gs o h
    → HeldBy left o (remove_files fs h)
unfolding without_all
remove_held fs gs left (err e) h w q = ap (remove_files fs) q ∙ ap (λ (xs : List String). bare xs) w
remove_held fs gs left (ok st) h w q =
    ap (remove_files fs) q ∙ ap (λ (xs : List String). holding st.vm_id xs) w

module _ (c : Calls) (p : Plan) where
  known_hosts-IsHostKey : (d : Deps) (vm : VmInfo) → IsHostKey c (known_hosts c p d vm)
  unfolding known_hosts
  known_hosts-IsHostKey d vm = elim (Bool-cases (str_eq d.ssh_key_path "")) [
    | inl y ↦ inl (rw y refl)
    | inr n ↦ elim (Option-cases (c.pin_host_key vm)) [
      | inl e ↦ inl (rw (n, e) refl)
      | inr (path, e) ↦ inr (vm, (path, e, rw (n, e) refl))
    ]
  ]

  known_hosts-nil : (d : Deps) (vm : VmInfo) → d.ssh_key_path ≡ "" → known_hosts c p d vm ≡ []
  unfolding known_hosts
  known_hosts-nil d vm q = rw q refl

  without_all-IsHostKey :
      (keys left : List String) → IsHostKey c left → IsHostKey c (without_all keys left)
  without_all-IsHostKey keys left (inl q) = inl (ap (without_all keys) q ∙ without_all-nil keys)
  without_all-IsHostKey keys left (inr (vm, (path, e, q))) = elim (without_all-single keys path) [
    | inl n ↦ inl (ap (without_all keys) q ∙ n)
    | inr y ↦ inr (vm, (path, e, ap (without_all keys) q ∙ y))
  ]

  -- A host key is all that is left.
  pub IsLeft-IsHostKey :
      (deps : String → Deps) (left : List String) → IsLeft c p deps left → IsHostKey c left
  IsLeft-IsHostKey deps left (inl q) = inl q
  IsLeft-IsHostKey deps left (inr (key, (vm, q))) = subst (IsHostKey c) (sym q) (
      without_all-IsHostKey (key_files key (c.pub_key key)) _ (known_hosts-IsHostKey (deps key) vm))

  -- Without a login there is nothing to pin.
  pub IsLeft-nil :
      (deps : String → Deps) (left : List String)
      → ((key : String) → (deps key).ssh_key_path ≡ "")
      → IsLeft c p deps left
      → left ≡ []
  IsLeft-nil deps left no_login (inl q) = q
  IsLeft-nil deps left no_login (inr (key, (vm, q))) =
      let keys = key_files key (c.pub_key key) in
      q
      ∙ ap (without_all keys) (known_hosts-nil (deps key) vm (no_login key))
      ∙ without_all-nil keys

module _ (c : Calls) (p : Plan) (tidy : IsTidy c) (deps : String → Deps) (verify : Verify) where
  without_key_guarded :
      (key : String) (r : RunEnd)
      → EndsGuarded c p (deps key) verify (key_files key (c.pub_key key)) r
      → (left : List String) × IsLeft c p deps left
        × IsGuarded c verify left (without_key c p (key_files key (c.pub_key key)) r)
  unfolding without_key
  without_key_guarded key r (gs, inl q, g) =
      let fs = key_files key (c.pub_key key) in
      let held =
        remove_held fs gs [] r.outcome r.held (ap (without_all fs) q ∙ without_all_self fs) g.0 in
      ([], inl refl, (held, g.1))
  without_key_guarded key r (gs, inr (vm, q), g) =
      let fs = key_files key (c.pub_key key) in
      let known = known_hosts c p (deps key) vm in
      let held =
        remove_held fs gs (without_all fs known) r.outcome r.held
          (ap (without_all fs) q ∙ without_all-own fs known) g.0 in
      (without_all fs known, inr (key, (vm, refl)), (held, g.1))

  pub with_key_guarded :
      (measurement : Text)
      → (left : List String) × IsLeft c p deps left
        × IsGuarded c verify left (with_key c p measurement deps verify (bare []))
  unfolding with_key
  with_key_guarded measurement = elim (Option-cases c.generate_key) [
    | inl n ↦ (
      [],
      inl refl,
      step c p tidy [] verify _ (failed c p (bare []) key_generation)
          (rw (n, with_key, tidy.no_key) refl) (failed_guarded c p tidy [] verify _),
    )
    | inr (key, y) ↦
        let fs = key_files key (c.pub_key key) in
        let r = with_egress c p measurement (deps key) verify (bare fs) in
        let g =
          without_key_guarded key r (with_egress_ends c p tidy fs (deps key) verify measurement) in
        (g.0, g.1, step c p tidy g.0 verify _ (without_key c p fs r) (rw (y, with_key) refl) g.2)
  ]
