-- ===== src/Scheduling/Pool/Exclusive.antt =====
-- Remote shares under the lock, for vpn/gpu_pool.py: pools of several processes share one Redis.
use deepiri_zepgpu.Base.{
  string_eq, nat_eq, beq_false, Bool-cases, Option-cases, ℕ, String, ◌≡◌, refl, ◌∙◌, ◌≢◌, ◌⊎◌, inl,
  inr, true, false, none, some, arith,
}
use deepiri_zepgpu.Base.Dict.{lookup-insert_self, lookup, insert}
use deepiri_zepgpu.Scheduling.Device.{allocated}
use deepiri_zepgpu.Scheduling.Lock.{Redis, RedisLaws, get_holder}
use deepiri_zepgpu.Scheduling.Lock.Holder.{release_lock-holder, acquire-held, acquire_cases}
use deepiri_zepgpu.Scheduling.Pool.{
  release_remote, lock_holder, drop_lock, release_remote_device, RemoteGpuDevice, GpuPool,
  can_allocate_remote, allocate_remote, take_lock, allocate_remote_device,
}

allocate_remote-idle :
    (d : RemoteGpuDevice) (t : String)
    → can_allocate_remote d 0 ≡ true
    → allocate_remote d t ≡ (true, record d { state = allocated; current_task_id = some t })
unfolding can_allocate_remote allocate_remote
allocate_remote-idle d t fits = ground arith

module _ {S : Type 0} (redis : Redis S) (laws : RedisLaws redis) (ttl : ℕ) where
  -- What holds after an allocation of `share` to the task `t` from the pool `p`.
  abbrev pub Allocated : GpuPool S → String → String → GpuPool S → Type 0
  Allocated p share t p' =
      (get_holder redis true p'.redis_state share ≡ some t)
      × ((d : RemoteGpuDevice) × (lookup share p.remote_devices ≡ some d)
          × (can_allocate_remote d 0 ≡ true)
          × (p'.remote_devices
              ≡ insert share (record d { state = allocated; current_task_id = some t })
                  p.remote_devices))

  -- With a lock and a connection to Redis: an allocation of a remote share that fails leaves the pool and Redis as they
  -- were. One that succeeds was of a listed idle device: the device is marked with the task, and
  -- the task holds the lock.
  pub allocate_remote_device-outcome :
      (p : GpuPool S) (share t : String)
      → (allocate_remote_device redis true true ttl p share t ≡ (false, p))
        ⊎ (((allocate_remote_device redis true true ttl p share t).0 ≡ true)
            × Allocated p share t (allocate_remote_device redis true true ttl p share t).1)
  unfolding allocate_remote_device take_lock
  allocate_remote_device-outcome p share t = elim (Option-cases (lookup share p.remote_devices)) [
    | inl missing ↦ inl (rw (allocate_remote_device, missing) refl)
    | inr (d, listed) ↦ elim (Bool-cases (can_allocate_remote d 0)) [
      | inr busy ↦ inl (rw (allocate_remote_device, listed, busy) refl)
      | inl fits ↦ elim (acquire_cases redis laws ttl p.redis_state share t) [
        | inr held ↦ inl (rw (allocate_remote_device, take_lock, listed, fits, held) refl)
        | inl (taken, holds) ↦
            rw
              (
                allocate_remote_device,
                take_lock,
                listed,
                fits,
                taken,
                allocate_remote-idle d t fits,
              )
              (inr (refl, (holds, (d, refl, fits, refl))))
      ]
    ]
  ]

  -- With a lock and a connection to Redis: while Redis keeps the lock of an allocated share, no pool
  -- that uses that Redis allocates the share again, to whatever task.
  pub allocate_remote_device-excludes :
      (p q : GpuPool S) (share t u : String)
      → (allocate_remote_device redis true true ttl p share t).0 ≡ true
      → get_holder redis true q.redis_state share
        ≡ get_holder redis true
            (allocate_remote_device redis true true ttl p share t).1.redis_state
            share
      → allocate_remote_device redis true true ttl q share u ≡ (false, q)
  unfolding allocate_remote_device take_lock
  allocate_remote_device-excludes p q share t u done kept =
      elim (allocate_remote_device-outcome p share t) [
        | inl failed ↦ absurd cc
        | inr (_, held) ↦ elim (Option-cases (lookup share q.remote_devices)) [
          | inl missing ↦ rw (allocate_remote_device, missing) refl
          | inr (d, listed) ↦ elim (Bool-cases (can_allocate_remote d 0)) [
            | inr busy ↦ rw (allocate_remote_device, listed, busy) refl
            | inl fits ↦
                rw
                  (
                    allocate_remote_device,
                    take_lock,
                    listed,
                    fits,
                    acquire-held redis laws ttl q.redis_state share u t (kept ∙ held.0),
                  )
                  refl
          ]
        ]
      ]

  -- With a lock and a connection to Redis, and a task id that is not empty: releasing an allocated
  -- remote share frees its lock and makes its device idle again.
  pub release_remote_device-undoes :
      (p : GpuPool S) (share t : String)
      → t ≢ ""
      → (allocate_remote_device redis true true ttl p share t).0 ≡ true
      → (get_holder redis true
            (release_remote_device redis true true ttl
              (allocate_remote_device redis true true ttl p share t).1
              share
              (some t)).redis_state
            share
          ≡ none)
        × ((d : RemoteGpuDevice) × (lookup share p.remote_devices ≡ some d)
            × (lookup share
                  (release_remote_device redis true true ttl
                    (allocate_remote_device redis true true ttl p share t).1
                    share
                    (some t)).remote_devices
                ≡ some (release_remote d)))
  unfolding release_remote_device drop_lock lock_holder release_remote
  release_remote_device-undoes p share t named done =
      elim (allocate_remote_device-outcome p share t) [
        | inl failed ↦ absurd cc
        | inr (_, (holds, (d, listed, fits, devices))) ↦
            let marked = record d { state = allocated; current_task_id = some t } in
            rw
              (
                release_remote_device,
                devices,
                lookup-insert_self share marked p.remote_devices,
                lock_holder,
                beq_false t "" named,
                drop_lock,
              )
              (
                release_lock-holder redis laws ttl _ share t holds,
                (d, listed, lookup-insert_self share (release_remote d) _),
              )
      ]
