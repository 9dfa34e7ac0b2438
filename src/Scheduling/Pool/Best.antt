-- ===== src/Scheduling/Pool/Best.antt =====
-- Which device the pool finds, for vpn/gpu_pool.py and core/gpu_manager.py.
use mathlib.Core.List.{Memᴰ}
use deepiri_zepgpu.Base.{
  if◌then◌else◌, Bool-cases, All, ℕ, String, ◌≡◌, refl, ◌⊎◌, inl, inr, Bool, true, false, ◌&&◌,
  Option, none, some, List, [], ◌∷◌, arith,
}
use deepiri_zepgpu.Scheduling.Device.{GpuDevice, has_type, can_allocate}
use deepiri_zepgpu.Scheduling.Manager.{first_available}
use deepiri_zepgpu.Scheduling.Pool.{consider, best_remote, RemoteGpuDevice, is_better}

-- A local device that the manager may hand out.
unfoldable pub fits_locally : ℕ → Option String → GpuDevice → Bool
fits_locally mb gpu_type d = has_type d.gpu_type gpu_type && can_allocate d mb

abbrev pub FirstFit : ℕ → Option String → List GpuDevice → Option GpuDevice → Type 0
FirstFit mb gpu_type devices none = All (λ d. fits_locally mb gpu_type d ≡ false) devices
FirstFit mb gpu_type devices (some d) = Memᴰ d devices × (fits_locally mb gpu_type d ≡ true)

first_available-cons :
    (mb : ℕ) (gpu_type : Option String) (d : GpuDevice) (devices : List GpuDevice)
    → first_available mb gpu_type (d ∷ devices)
      ≡ (if fits_locally mb gpu_type d then some d else first_available mb gpu_type devices)
unfolding first_available fits_locally
first_available-cons mb gpu_type d devices = ground arith

FirstFit-skip :
    (mb : ℕ) (gpu_type : Option String) (d : GpuDevice) (devices : List GpuDevice)
    (r : Option GpuDevice)
    → fits_locally mb gpu_type d ≡ false
    → FirstFit mb gpu_type devices r
    → FirstFit mb gpu_type (d ∷ devices) r
FirstFit-skip mb gpu_type d devices none unfit rest = (unfit, rest)
FirstFit-skip mb gpu_type d devices (some x) unfit rest = (Memᴰ.tail rest.0, rest.1)

pub first_available-FirstFit :
    (mb : ℕ) (gpu_type : Option String) (devices : List GpuDevice)
    → FirstFit mb gpu_type devices (first_available mb gpu_type devices)
unfolding first_available
first_available-FirstFit mb gpu_type [] = tt
first_available-FirstFit mb gpu_type (d ∷ devices) =
    rw (first_available-cons mb gpu_type d devices)
      (elim (Bool-cases (fits_locally mb gpu_type d)) [
        | inl suits ↦ rw suits (Memᴰ.head refl, suits)
        | inr unfit ↦ rw unfit (
            FirstFit-skip mb gpu_type d devices (first_available mb gpu_type devices) unfit
              (first_available-FirstFit mb gpu_type devices))
      ])

-- A device is at least as good as another: no less memory, and no more load if the memory is equal.
better_irrefl : (d : RemoteGpuDevice) → is_better d d ≡ false
unfolding is_better
better_irrefl d = ground arith

-- `d` beats `b`, and `x` is not beaten by `d`.
better_chain :
    (b d x : RemoteGpuDevice) → is_better d b ≡ true → is_better d x ≡ false → is_better b x ≡ false
unfolding is_better
better_chain b d x h g = ground arith

better_below :
    (d b x : RemoteGpuDevice)
    → is_better d b ≡ false
    → is_better b x ≡ false
    → is_better d x ≡ false
unfolding is_better
better_below d b x h g = ground arith

module _ (fits : RemoteGpuDevice → Bool) where
  -- None of the list that fits is better.
  abbrev pub Unbeaten : List RemoteGpuDevice → RemoteGpuDevice → Type 0
  Unbeaten devices d = All (λ e. fits e ≡ true → is_better e d ≡ false) devices

  abbrev pub IsBest : List RemoteGpuDevice → Option RemoteGpuDevice → Type 0
  IsBest devices none = All (λ e. fits e ≡ false) devices
  IsBest devices (some d) = Memᴰ d devices × (fits d ≡ true) × Unbeaten devices d

  -- The same for a loop that starts from `best`.
  abbrev From : Option RemoteGpuDevice → List RemoteGpuDevice → Option RemoteGpuDevice → Type 0
  From none devices r = IsBest devices r
  From (some b) devices none = ⊥
  From (some b) devices (some d) =
      ((d ≡ b) ⊎ (Memᴰ d devices × (fits d ≡ true))) × (is_better b d ≡ false) × Unbeaten devices d

  From-skip :
      (best : Option RemoteGpuDevice) (d : RemoteGpuDevice) (devices : List RemoteGpuDevice)
      (r : Option RemoteGpuDevice)
      → fits d ≡ false
      → From best devices r
      → From best (d ∷ devices) r
  From-skip none d devices none unfit h = (unfit, h)
  From-skip none d devices (some x) unfit h = (Memᴰ.tail h.0, h.1, (λ suits. absurd cc, h.2))
  From-skip (some b) d devices none unfit h = h
  From-skip (some b) d devices (some x) unfit (inl e, bound, rest) =
      (inl e, bound, (λ suits. absurd cc, rest))
  From-skip (some b) d devices (some x) unfit (inr m, bound, rest) =
      (inr (Memᴰ.tail m.0, m.1), bound, (λ suits. absurd cc, rest))

  From-start :
      (d : RemoteGpuDevice) (devices : List RemoteGpuDevice) (r : Option RemoteGpuDevice)
      → fits d ≡ true
      → From (some d) devices r
      → From none (d ∷ devices) r
  From-start d devices none suits h = absurd h
  From-start d devices (some x) suits (inl e, bound, rest) = (Memᴰ.head e, cc, (λ _. bound, rest))
  From-start d devices (some x) suits (inr m, bound, rest) =
      (Memᴰ.tail m.0, m.1, (λ _. bound, rest))

  From-keep :
      (b d : RemoteGpuDevice) (devices : List RemoteGpuDevice) (r : Option RemoteGpuDevice)
      → is_better d b ≡ false
      → From (some b) devices r
      → From (some b) (d ∷ devices) r
  From-keep b d devices none worse h = h
  From-keep b d devices (some x) worse (inl e, bound, rest) =
      (inl e, bound, (λ _. rw e worse, rest))
  From-keep b d devices (some x) worse (inr m, bound, rest) =
      (inr (Memᴰ.tail m.0, m.1), bound, (λ _. better_below d b x worse bound, rest))

  From-replace :
      (b d : RemoteGpuDevice) (devices : List RemoteGpuDevice) (r : Option RemoteGpuDevice)
      → fits d ≡ true
      → is_better d b ≡ true
      → From (some d) devices r
      → From (some b) (d ∷ devices) r
  From-replace b d devices none suits better h = h
  From-replace b d devices (some x) suits better (inl e, bound, rest) =
      (inr (Memᴰ.head e, cc), better_chain b d x better bound, (λ _. bound, rest))
  From-replace b d devices (some x) suits better (inr m, bound, rest) =
      (inr (Memᴰ.tail m.0, m.1), better_chain b d x better bound, (λ _. bound, rest))

  -- A round on a device that fits, if the rest of the loop does what it should.
  round_lem :
      (d : RemoteGpuDevice) (devices : List RemoteGpuDevice) (best : Option RemoteGpuDevice)
      → ((b : Option RemoteGpuDevice) → From b devices (best_remote fits devices b))
      → From best (d ∷ devices) (best_remote fits devices (consider fits d best))
  unfolding consider
  round_lem d devices best rec = elim (Bool-cases (fits d)) [
    | inr unfit ↦
        rw unfit (From-skip best d devices (best_remote fits devices best) unfit (rec best))
    | inl suits ↦ rw suits (start best suits)
  ]
    where
      start :
          (b : Option RemoteGpuDevice)
          → fits d ≡ true
          → From b (d ∷ devices) (
              best_remote fits devices
                (elim b [ none ↦ some d | some x ↦ if is_better d x then some d else some x ]))
      start none suits =
          From-start d devices (best_remote fits devices (some d)) suits (rec (some d))
      start (some x) suits = elim (Bool-cases (is_better d x)) [
        | inl better ↦ rw better (
            From-replace x d devices (best_remote fits devices (some d)) suits better
              (rec (some d)))
        | inr worse ↦
            rw worse
              (From-keep x d devices (best_remote fits devices (some x)) worse (rec (some x)))
      ]

  best_remote-From :
      (devices : List RemoteGpuDevice) (best : Option RemoteGpuDevice)
      → From best devices (best_remote fits devices best)
  unfolding best_remote
  best_remote-From [] none = tt
  best_remote-From [] (some b) = (inl refl, better_irrefl b, tt)
  best_remote-From (d ∷ devices) best = round_lem d devices best (best_remote-From devices)

  pub best_remote-IsBest :
      (devices : List RemoteGpuDevice) → IsBest devices (best_remote fits devices none)
  best_remote-IsBest devices = best_remote-From devices none
