-- ===== src/Scheduling/Lock.antt =====
-- deepiri_zepgpu/vpn/remote_gpu_lock.py: a lock for each share of a remote GPU, kept in Redis.
pub mod Holder
use Prim.Native.String.{◌++◌ as ◌+ₛ◌}
use deepiri_zepgpu.Base.Dict.{is_some}
use deepiri_zepgpu.Base.{
  if◌then◌else◌, string_eq, nat_eq, ◌==◌, ℕ, String, ◌≡◌, ◌≢◌, Bool, true, false, not, Option, none,
  some, List, [], ◌∷◌,
}

-- The commands of a Redis server that the lock calls, on the server's state: SET with NX (and an
-- expiry), GET and DEL.
pub record Redis (S : Type 0) : Type 0 where
  pub set_nx : S → String → String → ℕ → Bool × S
  pub get : S → String → Option String
  pub del : S → String → S

-- What Redis documents of them.
pub record RedisLaws {S : Type 0} (r : Redis S) : Type 0 where
  pub set_nx_held :
      (s : S) (k v w : String) (ttl : ℕ) → r.get s k ≡ some w → r.set_nx s k v ttl ≡ (false, s)
  pub set_nx_free :
      (s : S) (k v : String) (ttl : ℕ) → r.get s k ≡ none → (r.set_nx s k v ttl).0 ≡ true
  pub get_set_nx :
      (s : S) (k v : String) (ttl : ℕ) → r.get s k ≡ none → r.get (r.set_nx s k v ttl).1 k ≡ some v
  pub get_set_nx_other :
      (s : S) (k v j : String) (ttl : ℕ) → k ≢ j → r.get (r.set_nx s k v ttl).1 j ≡ r.get s j
  pub get_del : (s : S) (k : String) → r.get (r.del s k) k ≡ none
  pub get_del_other : (s : S) (k j : String) → k ≢ j → r.get (r.del s k) j ≡ r.get s j

-- f"{_PREFIX}{share_id}"
unfoldable pub share_key : String → String
share_key share_id = "zepgpu:vpn:gpu_share:" +ₛ share_id

-- `connected` is whether the `redis` package could be imported: `_conn` returns None without it.
module _ {S : Type 0} (redis : Redis S) (connected : Bool) where
  unfoldable pub acquire : S → String → String → ℕ → Bool × S
  acquire s share_id task_id ttl_seconds =
      if not connected then (true, s) else redis.set_nx s (share_key share_id) task_id ttl_seconds

  unfoldable pub acquire_first_available : S → List String → String → ℕ → Option String × S
  unfolding acquire
  acquire_first_available s [] task_id ttl_seconds = (none, s)
  acquire_first_available s (share_id ∷ share_ids) task_id ttl_seconds =
      let (acquired, s') = acquire s share_id task_id ttl_seconds in
      let rest = acquire_first_available s' share_ids task_id ttl_seconds in
      if acquired then (some share_id, s') else rest

  unfoldable pub get_holder : S → String → Option String
  get_holder s share_id = if not connected then none else redis.get s (share_key share_id)

  unfoldable pub is_locked : S → String → Bool
  is_locked s share_id = if not connected then false else is_some (redis.get s (share_key share_id))

  unfoldable pub release_lock : S → String → String → Bool × S
  release_lock s share_id task_id =
      if not connected then (true, s) else elim (redis.get s (share_key share_id)) [
        | none ↦ (false, s)
        | some val ↦ if val == task_id then (true, redis.del s (share_key share_id)) else (false, s)
      ]

  unfoldable pub force_release : S → String → S
  force_release s share_id = if not connected then s else redis.del s (share_key share_id)
