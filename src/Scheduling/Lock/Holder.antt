-- ===== src/Scheduling/Lock/Holder.antt =====
-- Who holds the lock of a share, for vpn/remote_gpu_lock.py with a connection to Redis.
use deepiri_zepgpu.Base.{
  string_eq, nat_eq, beq_self, beq_false, Option-cases, All, ℕ, String, ◌≡◌, refl, ◌≢◌, ◌⊎◌, inl,
  inr, true, false, Option, none, some, List, [], ◌∷◌,
}
use deepiri_zepgpu.Scheduling.Lock.{
  Redis, RedisLaws, share_key, acquire, acquire_first_available, get_holder, is_locked,
  release_lock,
}

module _ {S : Type 0} (redis : Redis S) (laws : RedisLaws redis) (ttl : ℕ) where
  pub acquire-held :
      (s : S) (share_id u w : String)
      → get_holder redis true s share_id ≡ some w
      → acquire redis true s share_id u ttl ≡ (false, s)
  unfolding acquire get_holder
  acquire-held s share_id u w held = laws.set_nx_held s (share_key share_id) u w ttl held

  pub acquire-free :
      (s : S) (share_id t : String)
      → get_holder redis true s share_id ≡ none
      → ((acquire redis true s share_id t ttl).0 ≡ true)
        × (get_holder redis true (acquire redis true s share_id t ttl).1 share_id ≡ some t)
  unfolding acquire get_holder
  acquire-free s share_id t free = (
    laws.set_nx_free s (share_key share_id) t ttl free,
    laws.get_set_nx s (share_key share_id) t ttl free,
  )

  -- It succeeds and the task holds the lock, or it fails and nothing has changed.
  pub acquire_cases :
      (s : S) (share_id t : String)
      → (((acquire redis true s share_id t ttl).0 ≡ true)
          × (get_holder redis true (acquire redis true s share_id t ttl).1 share_id ≡ some t))
        ⊎ (acquire redis true s share_id t ttl ≡ (false, s))
  acquire_cases s share_id t = elim (Option-cases (get_holder redis true s share_id)) [
    | inl free ↦ inl (acquire-free s share_id t free)
    | inr (w, held) ↦ inr (acquire-held s share_id t w held)
  ]

  pub release_lock-holder :
      (s : S) (share_id t : String)
      → get_holder redis true s share_id ≡ some t
      → get_holder redis true (release_lock redis true s share_id t).1 share_id ≡ none
  unfolding get_holder release_lock
  release_lock-holder s share_id t held =
      rw (held, beq_self t) (laws.get_del s (share_key share_id))

  pub release_lock-other :
      (s : S) (share_id t u : String)
      → get_holder redis true s share_id ≡ some t
      → t ≢ u
      → release_lock redis true s share_id u ≡ (false, s)
  unfolding get_holder release_lock
  release_lock-other s share_id t u held ne = rw (held, beq_false t u ne) refl

  -- The first share of the list that nobody holds goes to the task, and those before it are held;
  -- without such a share there is no answer and no change.
  abbrev pub TakesFirst : S → String → List String → Option String × S → Type 0
  TakesFirst s t shares (none, s') = All (λ x. is_locked redis true s x ≡ true) shares × (s' ≡ s)
  TakesFirst s t [] (some x, s') = ⊥
  TakesFirst s t (y ∷ shares) (some x, s') =
      ((x ≡ y) × (is_locked redis true s y ≡ false) × (get_holder redis true s' y ≡ some t))
      ⊎ ((is_locked redis true s y ≡ true) × TakesFirst s t shares (some x, s'))

  TakesFirst-skip :
      (s : S) (t y : String) (shares : List String) (r : Option String × S)
      → is_locked redis true s y ≡ true
      → TakesFirst s t shares r
      → TakesFirst s t (y ∷ shares) r
  TakesFirst-skip s t y shares (none, s') locked h = ((locked, h.0), h.1)
  TakesFirst-skip s t y shares (some x, s') locked h = inr (locked, h)

  is_locked-free :
      (s : S) (y : String) → get_holder redis true s y ≡ none → is_locked redis true s y ≡ false
  unfolding get_holder is_locked
  is_locked-free s y free = rw free refl

  is_locked-held :
      (s : S) (y w : String) → get_holder redis true s y ≡ some w → is_locked redis true s y ≡ true
  unfolding get_holder is_locked
  is_locked-held s y w held = rw held refl

  -- The first share of the list that nobody holds goes to the task, and those before it are held;
  -- without such a share the answer is None and Redis is unchanged. There is a connection.
  pub acquire_first_available-TakesFirst :
      (s : S) (t : String) (shares : List String)
      → TakesFirst s t shares (acquire_first_available redis true s shares t ttl)
  unfolding acquire_first_available
  acquire_first_available-TakesFirst s t [] = (tt, refl)
  acquire_first_available-TakesFirst s t (y ∷ shares) =
      elim (Option-cases (get_holder redis true s y)) [
        | inl free ↦
            let got = acquire-free s y t free in
            rw got.0 (inl (refl, is_locked-free s y free, got.1))
        | inr (w, held) ↦ rw (acquire-held s y t w held) (
            TakesFirst-skip s t y shares (acquire_first_available redis true s shares t ttl)
              (is_locked-held s y w held) (acquire_first_available-TakesFirst s t shares))
      ]
