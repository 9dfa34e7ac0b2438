-- ===== src/Scheduling/Pool/Find.antt =====
-- Which device `get_available_device` of the pool finds.
use deepiri_zepgpu.Scheduling.Manager.{first_available}
use mathlib.Core.List.{Memᴰ}
use deepiri_zepgpu.Base.{
  All, ℕ, String, ◌≡◌, refl, Bool, true, false, Option, none, some, List, [], ◌∷◌,
}
use deepiri_zepgpu.Base.Dict.{values}
use deepiri_zepgpu.Scheduling.Device.{GpuDevice}
use deepiri_zepgpu.Scheduling.Manager
use deepiri_zepgpu.Scheduling.Pool.{
  RemoteGpuDevice, GpuPool, Found, local, remote, is_candidate, best_remote, remote_choice,
  get_available_device,
}
use deepiri_zepgpu.Scheduling.Pool.Best.{
  first_available-FirstFit, FirstFit, fits_locally, IsBest, Unbeaten, best_remote-IsBest,
}
use deepiri_zepgpu.Scheduling.Pool.Suits.{
  SuitsLocally, SuitsRemotely, AtLeastAsGood, fits_locally_iff, is_candidate_iff, is_better-false,
}

-- The answer of the pool, by the tests of the program.
abbrev Chosen :
    ℕ
    → Option String
    → Option String
    → Bool
    → List GpuDevice
    → List RemoteGpuDevice
    → Option Found
    → Type 0
Chosen mb gpu_type room_id remote_only locals remotes none =
    (remote_only ≡ false → All (λ d. fits_locally mb gpu_type d ≡ false) locals)
    × IsBest (is_candidate mb gpu_type room_id) remotes none
Chosen mb gpu_type room_id remote_only locals remotes (some (local d)) =
    (remote_only ≡ false) × Memᴰ d locals × (fits_locally mb gpu_type d ≡ true)
Chosen mb gpu_type room_id remote_only locals remotes (some (remote d)) =
    (remote_only ≡ false → All (λ d. fits_locally mb gpu_type d ≡ false) locals)
    × IsBest (is_candidate mb gpu_type room_id) remotes (some d)

-- The answer, by what was asked for.
abbrev pub Answers :
    ℕ
    → Option String
    → Option String
    → Bool
    → List GpuDevice
    → List RemoteGpuDevice
    → Option Found
    → Type 0
Answers mb gpu_type room_id remote_only locals remotes none =
    (remote_only ≡ false → All (λ d. SuitsLocally mb gpu_type d → ⊥) locals)
    × All (λ d. SuitsRemotely mb gpu_type room_id d → ⊥) remotes
Answers mb gpu_type room_id remote_only locals remotes (some (local d)) =
    (remote_only ≡ false) × Memᴰ d locals × SuitsLocally mb gpu_type d
Answers mb gpu_type room_id remote_only locals remotes (some (remote d)) =
    (remote_only ≡ false → All (λ e. SuitsLocally mb gpu_type e → ⊥) locals)
    × Memᴰ d remotes
    × SuitsRemotely mb gpu_type room_id d
    × All (λ e. SuitsRemotely mb gpu_type room_id e → AtLeastAsGood d e) remotes

module _ (mb : ℕ) (gpu_type room_id : Option String) where
  unfit_locals :
      (locals : List GpuDevice)
      → All (λ d. fits_locally mb gpu_type d ≡ false) locals
      → All (λ d. SuitsLocally mb gpu_type d → ⊥) locals
  unfit_locals [] h = tt
  unfit_locals (d ∷ locals) h = (
    λ suits. let fits = (fits_locally_iff mb gpu_type d).1 suits in let unfit = h.0 in cc,
    unfit_locals locals h.1,
  )

  unfit_remotes :
      (remotes : List RemoteGpuDevice)
      → All (λ d. is_candidate mb gpu_type room_id d ≡ false) remotes
      → All (λ d. SuitsRemotely mb gpu_type room_id d → ⊥) remotes
  unfit_remotes [] h = tt
  unfit_remotes (d ∷ remotes) h = (
    λ suits. let fits = (is_candidate_iff mb gpu_type room_id d).1 suits in let unfit = h.0 in cc,
    unfit_remotes remotes h.1,
  )

  Unbeaten-remotes :
      (d : RemoteGpuDevice) (remotes : List RemoteGpuDevice)
      → Unbeaten (is_candidate mb gpu_type room_id) remotes d
      → All (λ e. SuitsRemotely mb gpu_type room_id e → AtLeastAsGood d e) remotes
  Unbeaten-remotes d [] h = tt
  Unbeaten-remotes d (e ∷ remotes) h = (
    λ suits. is_better-false d e (h.0 ((is_candidate_iff mb gpu_type room_id e).1 suits)),
    Unbeaten-remotes d remotes h.1,
  )

  Chosen-Answers :
      (remote_only : Bool) (locals : List GpuDevice) (remotes : List RemoteGpuDevice)
      (r : Option Found)
      → Chosen mb gpu_type room_id remote_only locals remotes r
      → Answers mb gpu_type room_id remote_only locals remotes r
  Chosen-Answers remote_only locals remotes none h =
      (λ both. unfit_locals locals (h.0 both), unfit_remotes remotes h.1)
  Chosen-Answers remote_only locals remotes (some (local d)) h =
      (h.0, h.1, (fits_locally_iff mb gpu_type d).0 h.2)
  Chosen-Answers remote_only locals remotes (some (remote d)) h = (
    λ both. unfit_locals locals (h.0 both),
    h.1.0,
    (is_candidate_iff mb gpu_type room_id d).0 h.1.1,
    Unbeaten-remotes d remotes h.1.2,
  )

module _ {S : Type 0} where
  module _ (pool : GpuPool S) (mb : ℕ) (gpu_type room_id : Option String) where
    remote_choice-Chosen :
        (remote_only : Bool)
        → (remote_only ≡ false
            → All (λ d. fits_locally mb gpu_type d ≡ false) (values pool.local_manager))
        → Chosen mb gpu_type room_id remote_only
            (values pool.local_manager)
            (values pool.remote_devices)
            (remote_choice pool mb gpu_type room_id)
    unfolding remote_choice
    remote_choice-Chosen remote_only unfit =
        chosen (best_remote (is_candidate mb gpu_type room_id) (values pool.remote_devices) none)
          (best_remote-IsBest (is_candidate mb gpu_type room_id) (values pool.remote_devices))
      where
        chosen :
            (r : Option RemoteGpuDevice)
            → IsBest (is_candidate mb gpu_type room_id) (values pool.remote_devices) r
            → Chosen mb gpu_type room_id remote_only
                (values pool.local_manager)
                (values pool.remote_devices)
                (elim r [ none ↦ none | some d ↦ some (remote d) ])
        chosen none best = (unfit, best)
        chosen (some d) best = (unfit, best)

    choice :
        (remote_only : Bool)
        → Chosen mb gpu_type room_id remote_only
            (values pool.local_manager)
            (values pool.remote_devices)
            (get_available_device pool mb gpu_type room_id remote_only)
    unfolding get_available_device Manager.get_available_device
    choice true = remote_choice-Chosen true (λ q. absurd cc)
    choice false =
        pick (first_available mb gpu_type (values pool.local_manager))
          (first_available-FirstFit mb gpu_type (values pool.local_manager))
      where
        pick :
            (r : Option GpuDevice)
            → FirstFit mb gpu_type (values pool.local_manager) r
            → Chosen mb gpu_type room_id false
                (values pool.local_manager)
                (values pool.remote_devices)
                (elim r [ none ↦ remote_choice pool mb gpu_type room_id | some d ↦ some (local d) ])
        pick none unfit = remote_choice-Chosen false (λ _. unfit)
        pick (some d) found = (refl, found.0, found.1)

    -- The pool answers with a local device that is idle, of the type asked for and large enough,
    -- unless only remote ones are wanted or there is none. Then it answers with a remote device of
    -- the room that is so, and none of the others has more memory, or as much and less load. It
    -- answers None only if no device suits.
    pub get_available_device-Answers :
        (remote_only : Bool)
        → Answers mb gpu_type room_id remote_only
            (values pool.local_manager)
            (values pool.remote_devices)
            (get_available_device pool mb gpu_type room_id remote_only)
    get_available_device-Answers remote_only =
        Chosen-Answers mb gpu_type room_id remote_only (values pool.local_manager)
          (values pool.remote_devices) _ (choice remote_only)
