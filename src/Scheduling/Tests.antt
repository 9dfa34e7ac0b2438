-- ===== src/Scheduling/Tests.antt =====
-- Devices, pools and schedulers on concrete inputs.
use deepiri_zepgpu.Scheduling.Manager.{first_available}
use deepiri_zepgpu.Base.{
  if◌then◌else◌, string_eq, nat_eq, ◌==◌, beq_self, beq_false, ℕ, String, ◌≡◌, refl, ◌≢◌, ◌⊎◌, Bool,
  true, false, Option, none, some, [], ◌∷◌,
}
use deepiri_zepgpu.Base.Int.{pos}
use deepiri_zepgpu.Base.Dict.{lookup, values}
use deepiri_zepgpu.Scheduling.Device.{GpuDevice, idle, nvidia, can_allocate, has_type}
use deepiri_zepgpu.Scheduling.Lock.{get_holder, Redis, RedisLaws, acquire_first_available, acquire}
use deepiri_zepgpu.Scheduling.Lock.Holder.{TakesFirst, acquire_first_available-TakesFirst}
use deepiri_zepgpu.Scheduling.Pool.{
  release_remote, release_remote_device, RemoteGpuDevice, GpuPool, local, remote,
  get_available_device, allocate_remote_device, allocate_remote, best_remote, can_allocate_remote,
  in_room, is_better, is_candidate,
}
use deepiri_zepgpu.Scheduling.Pool.Find.{Answers, get_available_device-Answers}
use deepiri_zepgpu.Scheduling.Pool.Exclusive.{
  release_remote_device-undoes, Allocated, allocate_remote_device-outcome,
  allocate_remote_device-excludes,
}

-- A Redis server in memory: the value of each key.
abbrev pub Store : Type 0
Store = String → Option String

abbrev put : Store → String → Option String → Store
put s k v j = if k == j then v else s j

abbrev pub set_if_absent : Store → String → String → Option String → Bool × Store
set_if_absent s k v none = (true, put s k (some v))
set_if_absent s k v (some w) = (false, s)

abbrev pub memory : Redis Store
memory = record {
  set_nx = λ s k v ttl. set_if_absent s k v (s k);
  get = λ s k. s k;
  del = λ s k. put s k none;
}

memory-laws : RedisLaws memory
memory-laws = record {
  set_nx_held = λ s k v w ttl h. rw h refl;
  set_nx_free = λ s k v ttl h. rw h refl;
  get_set_nx = λ s k v ttl h. rw (h, beq_self k) refl;
  get_set_nx_other = λ s k v j ttl ne. other s k v j ne (s k);
  get_del = λ s k. rw (beq_self k) refl;
  get_del_other = λ s k j ne. rw (beq_false k j ne) refl;
}
  where
    other :
        (s : Store) (k v j : String)
        → k ≢ j
        → (o : Option String) → (set_if_absent s k v o).1 j ≡ s j
    other s k v j ne none = rw (beq_false k j ne) refl
    other s k v j ne (some w) = refl

abbrev pub gpu : ℕ → ℕ → GpuDevice
gpu id mb = record {
  device_id = id;
  name = "A100";
  gpu_type = nvidia;
  total_memory_mb = mb;
  available_memory_mb = mb;
  state = idle;
  current_task_id = none;
}

abbrev peer_gpu : String → ℕ → ℕ → RemoteGpuDevice
peer_gpu share mb load = record {
  peer_id = "peer";
  peer_username = "peer";
  share_id = share;
  device_index = 0;
  name = "RTX";
  gpu_type = nvidia;
  total_memory_mb = mb;
  available_memory_mb = mb;
  compute_capability = (pos 8, pos 0);
  state = idle;
  current_task_id = none;
  utilization_percent = load;
  vpn_ip = "10.0.0.2";
  vpn_network_id = "room";
}

abbrev pub free_locks : Store
free_locks key = none

abbrev pub two_peers : GpuPool Store
two_peers = record {
  local_manager = (0, gpu 0 8000) ∷ [];
  remote_devices = ("a", peer_gpu "a" 16000 50) ∷ ("b", peer_gpu "b" 16000 20) ∷ [];
  redis_state = free_locks;
}

finds_local : get_available_device two_peers 4000 none none false ≡ some (local (gpu 0 8000))
unfolding get_available_device deepiri_zepgpu.Scheduling.Manager.get_available_device
    first_available has_type can_allocate
finds_local = refl

-- As much memory, less load.
finds_remote :
    get_available_device two_peers 9000 none none false ≡ some (remote (peer_gpu "b" 16000 20))
unfolding get_available_device deepiri_zepgpu.Scheduling.Manager.get_available_device
    first_available has_type can_allocate best_remote is_candidate in_room can_allocate_remote
    is_better
finds_remote = refl

finds_none : get_available_device two_peers 9000 none (some "elsewhere") true ≡ none
unfolding get_available_device best_remote is_candidate in_room
finds_none = refl

get_available_device-Answers_example :
    Answers 9000 none none false
      (values two_peers.local_manager)
      (values two_peers.remote_devices)
      (get_available_device two_peers 9000 none none false)
get_available_device-Answers_example = get_available_device-Answers two_peers 9000 none none false

acquire_first_available-TakesFirst_example :
    TakesFirst memory memory-laws 60 free_locks "t1"
      ("a" ∷ "b" ∷ [])
      (acquire_first_available memory true free_locks ("a" ∷ "b" ∷ []) "t1" 60)
acquire_first_available-TakesFirst_example =
    acquire_first_available-TakesFirst memory memory-laws 60 free_locks "t1" ("a" ∷ "b" ∷ [])

allocates : (allocate_remote_device memory true true 60 two_peers "a" "t1").0 ≡ true
unfolding allocate_remote_device can_allocate_remote acquire allocate_remote
allocates = refl

allocate_remote_device-outcome_example :
    (allocate_remote_device memory true true 60 two_peers "a" "t1" ≡ (false, two_peers))
    ⊎ (((allocate_remote_device memory true true 60 two_peers "a" "t1").0 ≡ true)
        × Allocated memory memory-laws 60 two_peers "a" "t1"
            (allocate_remote_device memory true true 60 two_peers "a" "t1").1)
allocate_remote_device-outcome_example =
    allocate_remote_device-outcome memory memory-laws 60 two_peers "a" "t1"

-- The pool of another process, which sees the same Redis.
abbrev other_process : GpuPool Store
other_process = record two_peers {
  redis_state = (allocate_remote_device memory true true 60 two_peers "a" "t1").1.redis_state;
}

allocate_remote_device-excludes_example :
    allocate_remote_device memory true true 60 other_process "a" "t2" ≡ (false, other_process)
allocate_remote_device-excludes_example =
    allocate_remote_device-excludes memory memory-laws 60 two_peers other_process "a" "t1" "t2"
      allocates refl

abbrev t1 : String
t1 = "t1"

t1_named : t1 ≢ ""
t1_named h = let clash : false ≡ true = (string_eq.same_iff t1 "").0 h in cc

release_remote_device-undoes_example :
    (get_holder memory true
        (release_remote_device memory true true 60
          (allocate_remote_device memory true true 60 two_peers "a" "t1").1
          "a"
          (some "t1")).redis_state
        "a"
      ≡ none)
    × ((d : RemoteGpuDevice) × (lookup "a" two_peers.remote_devices ≡ some d)
        × (lookup "a"
              (release_remote_device memory true true 60
                (allocate_remote_device memory true true 60 two_peers "a" "t1").1
                "a"
                (some "t1")).remote_devices
            ≡ some (release_remote d)))
release_remote_device-undoes_example =
    release_remote_device-undoes memory memory-laws 60 two_peers "a" "t1" t1_named allocates
