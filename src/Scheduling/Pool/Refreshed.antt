-- ===== src/Scheduling/Pool/Refreshed.antt =====
-- deepiri_zepgpu/vpn/gpu_pool.py: what a refresh leaves.
use deepiri_zepgpu.Base.Dict.{lookup-insert, insert, lookup, Dict}
use deepiri_zepgpu.Base.Int.{ℤ}
use deepiri_zepgpu.Base.{
  if◌then◌else◌, string_eq, nat_eq, ◌==◌, All, Outcome-cases, ok, raise, String, ◌≡◌, refl, subst,
  ◌∙◌, ◌⊎◌, inl, inr, Bool, true, false, Option, none, some, List, [], ◌∷◌,
}
use deepiri_zepgpu.Ledger.Json.{Payload}
use deepiri_zepgpu.Scheduling.Pool.{GpuPool, RemoteGpuDevice}
use deepiri_zepgpu.Scheduling.Pool.Typed.{IsTyped, IsRead, read_device-IsRead}
use deepiri_zepgpu.Scheduling.Pool.Refresh.{
  refresh_remote_gpus, read_devices, RefreshError, read_device,
}

-- The last device of a share.
abbrev pub last_of : String → List RemoteGpuDevice → Option RemoteGpuDevice
last_of share_id [] = none
last_of share_id (d ∷ devices) = elim (last_of share_id devices) [
  | none ↦ if d.share_id == share_id then some d else none
  | some later ↦ some later
]

module _ (parse_int : String → Option ℤ) where
  -- Each entry is read as its device.
  abbrev pub Reads : List Payload → List RemoteGpuDevice → Type 0
  Reads [] [] = Unit
  Reads [] (d ∷ devices) = ⊥
  Reads (g ∷ gpus) [] = ⊥
  Reads (g ∷ gpus) (d ∷ devices) = (read_device parse_int g ≡ ok d) × Reads gpus devices

  -- The entries are read up to one whose reading raises this.
  abbrev pub Fails : List Payload → RefreshError → Type 0
  Fails [] e = ⊥
  Fails (g ∷ gpus) e =
      (read_device parse_int g ≡ raise e)
      ⊎ ((d : RemoteGpuDevice) × (read_device parse_int g ≡ ok d) × Fails gpus e)

  abbrev last_or : Option RemoteGpuDevice → Option RemoteGpuDevice → Option RemoteGpuDevice
  last_or none old = old
  last_or (some d) old = some d

  last_or-later :
      (last : Option RemoteGpuDevice) (here : Bool) (d : RemoteGpuDevice)
      (old : Option RemoteGpuDevice)
      → last_or last (if here then some d else old)
        ≡ last_or (elim last [ none ↦ if here then some d else none | some later ↦ some later ]) old
  last_or-later none true d old = refl
  last_or-later none false d old = refl
  last_or-later (some later) here d old = refl

  read_devices-outcome :
      (gpus : List Payload) (m : Dict String RemoteGpuDevice)
      → ((e : RefreshError) × (read_devices parse_int gpus m ≡ raise e) × Fails gpus e)
        ⊎ ((devices : List RemoteGpuDevice) × (m' : Dict String RemoteGpuDevice) × (read_devices
                parse_int gpus m
              ≡ ok m')
            × Reads gpus devices
            × ((id : String) → lookup id m' ≡ last_or (last_of id devices) (lookup id m)))
  unfolding read_devices
  read_devices-outcome [] m = inr ([], m, refl, tt, λ id. refl)
  read_devices-outcome (g ∷ gpus) m = elim (Outcome-cases (read_device parse_int g)) [
    | inr (e, bad) ↦ inl (e, rw (read_devices, bad) refl, inl bad)
    | inl (d, good) ↦ elim (read_devices-outcome gpus (insert d.share_id d m)) [
      | inl (e, bad, fails) ↦ inl (e, rw (read_devices, good) bad, inr (d, good, fails))
      | inr (devices, m', done, reads, found) ↦ inr (
        d ∷ devices,
        m',
        rw (read_devices, good) done,
        (good, reads),
        λ id. latest d devices m id (found id),
      )
    ]
  ]
    where
      latest :
          (d : RemoteGpuDevice) (devices : List RemoteGpuDevice) (m : Dict String RemoteGpuDevice)
          (id : String) {x : Option RemoteGpuDevice}
          → x ≡ last_or (last_of id devices) (lookup id (insert d.share_id d m))
          → x ≡ last_or (last_of id (d ∷ devices)) (lookup id m)
      latest d devices m id h =
          h
          ∙ rw (lookup-insert id d.share_id d m)
              (last_or-later (last_of id devices) (d.share_id == id) d (lookup id m))

-- KeyError or ValueError.
abbrev pub IsRaised : RefreshError → Type 0
IsRaised e = (e ≡ RefreshError.key_error) ⊎ (e ≡ RefreshError.value_error)

Fails-IsRaised :
    (parse_int : String → Option ℤ) (gpus : List Payload) (e : RefreshError)
    → All IsTyped gpus
    → Fails parse_int gpus e
    → IsRaised e
Fails-IsRaised parse_int [] e typed fails = absurd fails
Fails-IsRaised parse_int (g ∷ gpus) e typed (inr (d, good, fails)) =
    Fails-IsRaised parse_int gpus e typed.1 fails
Fails-IsRaised parse_int (g ∷ gpus) e typed (inl bad) =
    by_error e (subst IsRead bad (read_device-IsRead parse_int g typed.0))
  where
    by_error : (e : RefreshError) → IsRead {A = RemoteGpuDevice} (raise e) → IsRaised e
    by_error RefreshError.key_error read = inl refl
    by_error RefreshError.value_error read = inr refl
    by_error RefreshError.unread read = absurd read.read

-- Where the values that entries have are of the annotated types (texts, and whole numbers from 0 on):
-- a refresh either raises the KeyError or the ValueError of the first entry that cannot be read, and
-- leaves the pool as it was, or it reads every entry and replaces the remote devices: each share then has the device of its last entry,
-- and a share without an entry has none; the local devices and the locks stay as they are.
pub refresh_remote_gpus-outcome :
    (parse_int : String → Option ℤ) {S : Type 0} (pool : GpuPool S) (gpus : List Payload)
    → All IsTyped gpus
    → ((e : RefreshError) × (refresh_remote_gpus parse_int pool gpus ≡ (some e, pool))
        × Fails parse_int gpus e
        × IsRaised e)
      ⊎ ((devices : List RemoteGpuDevice) × (after : GpuPool S) × (refresh_remote_gpus parse_int
              pool gpus
            ≡ (none, after))
          × Reads parse_int gpus devices
          × ((id : String) → lookup id after.remote_devices ≡ last_of id devices)
          × (after.local_manager ≡ pool.local_manager)
          × (after.redis_state ≡ pool.redis_state))
unfolding refresh_remote_gpus
refresh_remote_gpus-outcome parse_int pool gpus typed =
    elim (read_devices-outcome parse_int gpus []) [
      | inl (e, bad, fails) ↦ inl (
        e,
        rw (refresh_remote_gpus, bad) refl,
        fails,
        Fails-IsRaised parse_int gpus e typed fails,
      )
      | inr (devices, m, done, reads, found) ↦ inr (
        devices,
        record pool { remote_devices = m },
        rw (refresh_remote_gpus, done) refl,
        reads,
        λ id. whole (last_of id devices) (found id),
        refl,
        refl,
      )
    ]
  where
    whole :
        (o : Option RemoteGpuDevice) {x : Option RemoteGpuDevice}
        → x ≡ last_or parse_int o none
        → x ≡ o
    whole none h = h
    whole (some d) h = h
