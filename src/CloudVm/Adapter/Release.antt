-- ===== src/CloudVm/Adapter/Release.antt =====
-- Execute and Cleanup leave nothing behind.
use mathlib.Core.List.{append_assoc}
use dispatcher.Prelude.{
  ◌⊎◌, String, true, List, [], ◌∷◌, ◌++◌, Option, none, some, ◌≡◌, ◌≢◌, refl, sym, ap, ◌∙◌, subst,
  inl, inr, arith, All, Any, All-Any_self, Bool-cases, Option-cases, str_eq, eq_iff, if◌then◌else◌,
}
use dispatcher.Types.{Plan}
use dispatcher.CloudVm.Adapter.{
  VmInfo, VmOptions, CloudVmState, Holdings, without, without_all, remove_files, destroy_vm,
  key_files, own_files, cleanup, when_named,
}
use dispatcher.CloudVm.Adapter.Execute.{
  Config, Calls, ExecEnd, failed, launched, new_state, upload_and_start, attest, wrap, pin,
  provision, create, execute, build_vm_options, no_gpu_instance, wrapper, path_list,
}

abbrev pub nothing_held : Holdings
nothing_held = record { vms = []; files = [] }

without-others :
    (x : String) (xs fs : List String)
    → All (λ f. Any (λ y. y ≡ f) (x ∷ xs)) fs
    → All (λ f. Any (λ y. y ≡ f) xs) (without x fs)
without-others x xs [] a = tt
without-others x xs (f ∷ fs) a = ground (arith, eq_iff f x, without-others x xs fs a.1, a.0)

-- Removing all of some files leaves none.
without_all-covered :
    (xs fs : List String) → All (λ f. Any (λ y. y ≡ f) xs) fs → without_all xs fs ≡ []
unfolding without_all
without_all-covered [] [] a = refl
without_all-covered [] (f ∷ fs) a = absurd a.0
without_all-covered (x ∷ xs) fs a = without_all-covered xs (without x fs) (without-others x xs fs a)

pub without_all_self : (fs : List String) → without_all fs fs ≡ []
without_all_self fs = without_all-covered fs fs (All-Any_self fs)

pub without-one : (x : String) → without x (x ∷ []) ≡ []
without-one x = ground (arith, eq_iff x x)

without-++ :
    (x : String) (ys zs : List String) → without x (ys ++ zs) ≡ without x ys ++ without x zs
without-++ x [] zs = refl
without-++ x (y ∷ ys) zs = ground (arith, without-++ x ys zs)

without_all-++ :
    (xs ys zs : List String) → without_all xs (ys ++ zs) ≡ without_all xs ys ++ without_all xs zs
unfolding without_all
without_all-++ [] ys zs = refl
without_all-++ (x ∷ xs) ys zs =
    ap (without_all xs) (without-++ x ys zs) ∙ without_all-++ xs (without x ys) (without x zs)

-- Removing some files again leaves those of the others that are not among them.
pub without_all-own :
    (xs others : List String) → without_all xs (xs ++ others) ≡ without_all xs others
without_all-own xs others =
    without_all-++ xs xs others
    ∙ ap (λ (ys : List String). ys ++ without_all xs others) (without_all_self xs)

pub without_all-nil : (xs : List String) → without_all xs [] ≡ []
unfolding without_all
without_all-nil [] = refl
without_all-nil (x ∷ xs) = without_all-nil xs

pub without_all-single :
    (xs : List String) (path : String)
    → (without_all xs (path ∷ []) ≡ []) ⊎ (without_all xs (path ∷ []) ≡ path ∷ [])
unfolding without_all
without_all-single [] path = inr refl
without_all-single (x ∷ xs) path = elim (Bool-cases (str_eq path x)) [
  | inl y ↦ inl (rw y (without_all-nil xs))
  | inr n ↦ rw n (without_all-single xs path)
]

-- How Execute may end, from nothing: on an error with nothing, or with the file that a failed
-- writeSSHWrapper left, and otherwise with the VM and the files of the returned state, all of which
-- Cleanup gives back.
abbrev pub IsReleased : (String → String) → Option String → Holdings → ExecEnd → Type 0
IsReleased pub_key wrapper_left s (failed e) =
    (s ≡ nothing_held)
    ⊎ ((e ≡ wrapper)
        × ((path : String) × (wrapper_left ≡ some path)
            × (s ≡ record { vms = []; files = path ∷ [] })))
IsReleased pub_key wrapper_left s (launched st) =
    (s ≡ record { vms = st.vm_id ∷ []; files = own_files pub_key st })
    × ((cleanup pub_key none st s).0 ≡ nothing_held)

abbrev held : VmInfo → List String → Holdings
held vm early = record { vms = vm.id ∷ []; files = early }

pair-eq :
    {v v' f f' : List String}
    → v ≡ v'
    → f ≡ f'
    → ◌≡◌ {A = Holdings} (record { vms = v; files = f }) (record { vms = v'; files = f' })
pair-eq e g = cc

cleanup-held :
    (pub_key : String → String) (st : CloudVmState)
    → (cleanup pub_key none st (record { vms = st.vm_id ∷ []; files = own_files pub_key st })).0
      ≡ nothing_held
unfolding cleanup
cleanup-held pub_key st = pair-eq (without-one st.vm_id) (without_all_self (own_files pub_key st))

-- The files that are there before the host key is pinned.
abbrev key_part : (String → String) → CloudVmState → List String
key_part pub_key st =
    if st.ssh_key_managed then key_files st.ssh_key_path (pub_key st.ssh_key_path) else []

when_named-some : (path : String) → path ≢ "" → when_named path ≡ path ∷ []
when_named-some path n = ground (arith, eq_iff path "")

own_files-parts :
    (pub_key : String → String) (st : CloudVmState) (known_hosts ssh_wrapper : String)
    → known_hosts ≢ ""
    → ssh_wrapper ≢ ""
    → own_files pub_key (record st { known_hosts_path = known_hosts; ssh_wrapper = ssh_wrapper })
      ≡ (key_part pub_key st ++ known_hosts ∷ []) ++ ssh_wrapper ∷ []
unfolding own_files
own_files-parts pub_key st known_hosts ssh_wrapper k w =
    rw (when_named-some known_hosts k, when_named-some ssh_wrapper w)
      (sym (append_assoc (key_part pub_key st) (known_hosts ∷ []) (ssh_wrapper ∷ [])))

module _ (c : Calls) (cfg : Config) (p : Plan) (destroys : (id : String) → c.destroys id ≡ true)
    (pins : c.pin_host_key ≢ some "") (wraps : c.write_wrapper ≢ some "")
    (no_vm : c.vms_left ≡ []) where
  abbrev Released : Holdings × ExecEnd → Type 0
  Released r = IsReleased c.pub_key c.wrapper_left r.0 r.1

  abandoned :
      (vm : VmInfo) (early : List String)
      → remove_files early (destroy_vm (c.destroys vm.id) vm.id (held vm early)) ≡ nothing_held
  unfolding remove_files
  abandoned vm early = rw (destroys vm.id) (pair-eq (without-one vm.id) (without_all_self early))

  upload_and_start-Released :
      (vm : VmInfo) (early : List String) (st : CloudVmState)
      → st.vm_id ≡ vm.id
      → own_files c.pub_key st ≡ early
      → Released (upload_and_start c cfg p vm early st (held vm early))
  unfolding upload_and_start own_files cleanup
  upload_and_start-Released vm early st v f = elim (Bool-cases c.rsync) [
    | inr n ↦ rw n (inl (abandoned vm early))
    | inl y ↦ elim (Option-cases c.start_workload) [
      | inl n ↦ rw (y, n) (inl (abandoned vm early))
      | inr (pid, k) ↦
          let same = pair-eq (ap (λ x. x ∷ []) (sym v)) (sym f) in
          rw (y, k)
            (
              same,
              subst (λ x. (cleanup c.pub_key none st x).0 ≡ nothing_held) (sym same)
                  (cleanup-held c.pub_key st),
            )
    ]
  ]

  attest-Released :
      (vm : VmInfo) (early : List String) (st : CloudVmState)
      → st.vm_id ≡ vm.id
      → own_files c.pub_key st ≡ early
      → Released (attest c cfg p vm early st (held vm early))
  unfolding attest own_files
  attest-Released vm early st v f = elim (Option-cases c.verify) [
    | inl n ↦ rw n (inl (abandoned vm early))
    | inr (att, k) ↦ rw k (upload_and_start-Released vm early (record st { attestation = att }) v f)
  ]

  -- The wrapper could not be written: what is left of it stays, unless it has the name of a file that
  -- is removed.
  unwrapped :
      (vm : VmInfo) (early : List String)
      → Released (
        remove_files early
            (destroy_vm (c.destroys vm.id) vm.id (held vm (early ++ path_list c.wrapper_left))),
        failed wrapper,
      )
  unfolding remove_files
  unwrapped vm early =
      let own = without_all-own early in
      elim (Option-cases c.wrapper_left) [
        | inl n ↦
            rw (destroys vm.id, n)
              (inl (pair-eq (without-one vm.id) (own [] ∙ without_all-nil early)))
        | inr (path, y) ↦ elim (without_all-single early path) [
          | inl gone ↦
              rw (destroys vm.id, y) (inl (pair-eq (without-one vm.id) (own (path ∷ []) ∙ gone)))
          | inr stays ↦
              rw (destroys vm.id, y)
                (inr (refl, (path, refl, pair-eq (without-one vm.id) (own (path ∷ []) ∙ stays))))
        ]
      ]

  wrap-Released :
      (vm : VmInfo) (early : List String) (st : CloudVmState) (path : String)
      → path ≢ ""
      → st.vm_id ≡ vm.id
      → key_part c.pub_key st ++ path ∷ [] ≡ early
      → Released (wrap c cfg p vm early (record st { known_hosts_path = path }) (held vm early))
  unfolding wrap
  wrap-Released vm early st path named v f = elim (Bool-cases c.wait_auth) [
    | inr n ↦ rw n (inl (abandoned vm early))
    | inl y ↦ elim (Option-cases c.write_wrapper) [
      | inl n ↦ rw (y, n) (unwrapped vm early)
      | inr (w, k) ↦
          let wn : w ≢ "" = (λ e. wraps (k ∙ ap some e)) in
          rw (y, k)
            (attest-Released vm (early ++ w ∷ [])
              (record st { known_hosts_path = path; ssh_wrapper = w }) v
              (own_files-parts c.pub_key st path w named wn ∙ ap (λ x. x ++ w ∷ []) f))
    ]
  ]

  pin-Released :
      (vm : VmInfo) (early : List String) (st : CloudVmState)
      → st.vm_id ≡ vm.id
      → key_part c.pub_key st ≡ early
      → Released (pin c cfg p vm early st (held vm early))
  unfolding pin
  pin-Released vm early st v f = elim (Option-cases c.pin_host_key) [
    | inl n ↦ rw n (inl (abandoned vm early))
    | inr (path, k) ↦
        let pn : path ≢ "" = (λ e. pins (k ∙ ap some e)) in
        rw k (wrap-Released vm (early ++ path ∷ []) st path pn v (ap (λ x. x ++ path ∷ []) f))
  ]

  provision-Released :
      (vm : VmInfo) (opts : VmOptions) (key : String)
      → Released (provision c cfg p vm opts key (held vm (key_files key (c.pub_key key))))
  unfolding provision new_state remove_files
  provision-Released vm opts key =
      let keys = key_files key (c.pub_key key) in
      let st = new_state c cfg p vm opts key in
      elim (Bool-cases c.wait_ready) [
        | inr n ↦ rw n (inl (abandoned vm keys))
        | inl y ↦ elim (Bool-cases (str_eq vm.ssh_key_path "")) [
          | inl own ↦ rw (y, own) (pin-Released vm keys st refl (rw own refl))
          | inr theirs ↦
              rw (y, theirs)
                (subst
                  (λ x. Released (pin c cfg p vm [] st (record { vms = vm.id ∷ []; files = x })))
                  (sym (without_all_self keys)) (pin-Released vm [] st refl (rw theirs refl)))
        ]
      ]

  create-Released :
      (key : String)
      → Released (create c cfg p key (record { vms = []; files = key_files key (c.pub_key key) }))
  unfolding create remove_files
  create-Released key =
      let keys = key_files key (c.pub_key key) in
      let opts = build_vm_options c cfg p (c.pub_key key) in
      let aborted = pair-eq {v = []} refl (without_all_self keys) in
      elim (Bool-cases (no_gpu_instance c cfg p opts)) [
        | inl y ↦ rw y (inl aborted)
        | inr n ↦ elim (Bool-cases (c.attestable p.workload cfg.provider_id)) [
          | inr a ↦ rw (n, a) (inl aborted)
          | inl a ↦ elim (Option-cases (c.create_vm opts)) [
            | inl e ↦ rw (n, a, e) (inl (pair-eq no_vm (without_all_self keys)))
            | inr (vm, e) ↦ rw (n, a, e) (provision-Released vm opts key)
          ]
        ]
      ]

-- Where every destruction that is asked for succeeds, a generateSSHKey or a CreateVM that fails leaves
-- nothing, and the host-key and wrapper files have names: an Execute that fails leaves neither a VM nor a
-- file of the run, but for what a writeSSHWrapper that failed may leave of its file; one that succeeds
-- leaves the VM and the files of the state that it returns, and nothing else, and Cleanup of that state
-- gives them all back.
pub execute-IsReleased :
    (c : Calls) (cfg : Config) (p : Plan)
    → ((id : String) → c.destroys id ≡ true)
    → c.pin_host_key ≢ some ""
    → c.write_wrapper ≢ some ""
    → c.key_left ≡ []
    → c.vms_left ≡ []
    → IsReleased c.pub_key c.wrapper_left
        (execute c cfg p nothing_held).0
        (execute c cfg p nothing_held).1
unfolding execute
execute-IsReleased c cfg p destroys pins wraps no_key no_vm = elim (Option-cases c.generate_key) [
  | inl n ↦ rw n (inl (pair-eq refl no_key))
  | inr (key, k) ↦ rw k (create-Released c cfg p destroys pins wraps no_vm key)
]
