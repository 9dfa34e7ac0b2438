-- ===== src/Scheduling/Pool/Typed.antt =====
-- deepiri_zepgpu/vpn/gpu_pool.py: entries of the annotated types, as vpn/pool_sync.py builds them.
use deepiri_zepgpu.Base.Dict.{lookup}
use deepiri_zepgpu.Base.Int.{ℤ, pos, negsuc}
use deepiri_zepgpu.Base.{
  if◌then◌else◌, string_eq, nat_eq, ◌==◌, Outcome, ◌>>=◌, ok, raise, ℕ, String, ◌≡◌, Bool, true,
  false, Option, none, some, List, [], ◌∷◌,
}
use deepiri_zepgpu.Ledger.Json.{Json, null, bool, num, str, arr, obj, Payload}
use deepiri_zepgpu.Scheduling.Pool.Refresh.{
  RefreshError, key_error, value_error, unread, as_text, as_number, required, default_to,
  optional_text, gpu_type_of, gpu_state_of, int_of, capability_of, read_device, split_dots,
}

-- A missing key, or a text; a missing key, None or a text; a missing key, or a number from 0 on.
abbrev pub has_text : Option Json → Bool
has_text none = true
has_text (some v) = elim v [ str s ↦ true | _ ↦ false ]

abbrev pub has_optional_text : Option Json → Bool
has_optional_text none = true
has_optional_text (some v) = elim v [ str s ↦ true | null ↦ true | _ ↦ false ]

abbrev pub has_number : Option Json → Bool
has_number none = true
has_number (some v) = elim v [ num (pos n) ↦ true | _ ↦ false ]

-- The values that are there have the types that RemoteGPUDevice annotates.
pub record IsTyped (d : Payload) : Type 0 where
  pub share_id : has_text (lookup "share_id" d) ≡ true
  pub capability : has_text (lookup "compute_capability" d) ≡ true
  pub peer_id : has_text (lookup "peer_id" d) ≡ true
  pub peer_username : has_text (lookup "peer_username" d) ≡ true
  pub device_index : has_number (lookup "device_index" d) ≡ true
  pub name : has_text (lookup "name" d) ≡ true
  pub total_memory_mb : has_number (lookup "total_memory_mb" d) ≡ true
  pub available_memory_mb : has_number (lookup "available_memory_mb" d) ≡ true
  pub current_task_id : has_optional_text (lookup "current_task_id" d) ≡ true
  pub utilization_percent : has_number (lookup "utilization_percent" d) ≡ true
  pub vpn_ip : has_text (lookup "vpn_ip" d) ≡ true
  pub vpn_network_id : has_text (lookup "vpn_network_id" d) ≡ true

abbrev NotUnread : {A : Type 0} → Outcome RefreshError A → Type 0
NotUnread (ok x) = Unit
NotUnread (raise key_error) = Unit
NotUnread (raise value_error) = Unit
NotUnread (raise unread) = ⊥

-- Nothing is raised that the source does not raise. A record, so that a condition inside can be split.
pub record IsRead {A : Type 0} (r : Outcome RefreshError A) : Type 0 where
  pub read : NotUnread r

bind-IsRead :
    {A B : Type 0} (m : Outcome RefreshError A) (k : A → Outcome RefreshError B)
    → IsRead m
    → ((x : A) → IsRead (k x))
    → IsRead (m >>= k)
bind-IsRead (ok x) k h rest = rest x
bind-IsRead (raise key_error) k h rest = record { read = tt }
bind-IsRead (raise value_error) k h rest = record { read = tt }
bind-IsRead (raise unread) k h rest = absurd h.read

as_text-IsRead : (v : Json) → has_text (some v) ≡ true → IsRead (as_text v)
as_text-IsRead (str s) h = record { read = tt }
as_text-IsRead null h = cc
as_text-IsRead (bool b) h = cc
as_text-IsRead (num n) h = cc
as_text-IsRead (arr vs) h = cc
as_text-IsRead (obj fs) h = cc

as_number-IsRead : (v : Json) → has_number (some v) ≡ true → IsRead (as_number v)
as_number-IsRead (num (pos n)) h = record { read = tt }
as_number-IsRead (num (negsuc n)) h = cc
as_number-IsRead null h = cc
as_number-IsRead (bool b) h = cc
as_number-IsRead (str s) h = cc
as_number-IsRead (arr vs) h = cc
as_number-IsRead (obj fs) h = cc

text-IsRead : (o : Option Json) → has_text o ≡ true → IsRead (required o >>= as_text)
text-IsRead none h = record { read = tt }
text-IsRead (some v) h = as_text-IsRead v h

number-IsRead : (o : Option Json) → has_number o ≡ true → IsRead (required o >>= as_number)
number-IsRead none h = record { read = tt }
number-IsRead (some v) h = as_number-IsRead v h

text_or-IsRead :
    (default : String) (o : Option Json)
    → has_text o ≡ true
    → IsRead (as_text (default_to (str default) o))
text_or-IsRead default none h = record { read = tt }
text_or-IsRead default (some v) h = as_text-IsRead v h

number_or-IsRead :
    (n : ℕ) (o : Option Json)
    → has_number o ≡ true
    → IsRead (as_number (default_to (num (pos n)) o))
number_or-IsRead n none h = record { read = tt }
number_or-IsRead n (some v) h = as_number-IsRead v h

optional_text-IsRead :
    (o : Option Json) → has_optional_text o ≡ true → IsRead (optional_text (default_to null o))
optional_text-IsRead none h = record { read = tt }
optional_text-IsRead (some (str s)) h = record { read = tt }
optional_text-IsRead (some null) h = record { read = tt }
optional_text-IsRead (some (bool b)) h = cc
optional_text-IsRead (some (num n)) h = cc
optional_text-IsRead (some (arr vs)) h = cc
optional_text-IsRead (some (obj fs)) h = cc

if-IsRead :
    {A : Type 0} (b : Bool) (x y : Outcome RefreshError A)
    → IsRead x
    → IsRead y
    → IsRead (if b then x else y)
if-IsRead true x y p q = p
if-IsRead false x y p q = q

gpu_type_of-IsRead : (v : Json) → IsRead (gpu_type_of v)
unfolding gpu_type_of
gpu_type_of-IsRead (str s) =
    if-IsRead (s == "nvidia") _ _ (record { read = tt })
      (if-IsRead (s == "amd") _ _ (record { read = tt })
        (if-IsRead (s == "cpu") _ _ (record { read = tt }) (record { read = tt })))
gpu_type_of-IsRead null = record { read = tt }
gpu_type_of-IsRead (bool b) = record { read = tt }
gpu_type_of-IsRead (num n) = record { read = tt }
gpu_type_of-IsRead (arr vs) = record { read = tt }
gpu_type_of-IsRead (obj fs) = record { read = tt }

gpu_state_of-IsRead : (v : Json) → IsRead (gpu_state_of v)
unfolding gpu_state_of
gpu_state_of-IsRead (str s) =
    if-IsRead (s == "idle") _ _ (record { read = tt })
      (if-IsRead (s == "allocated") _ _ (record { read = tt })
        (if-IsRead (s == "reserved") _ _ (record { read = tt })
          (if-IsRead (s == "error") _ _ (record { read = tt })
            (if-IsRead (s == "unavailable") _ _ (record { read = tt }) (record { read = tt })))))
gpu_state_of-IsRead null = record { read = tt }
gpu_state_of-IsRead (bool b) = record { read = tt }
gpu_state_of-IsRead (num n) = record { read = tt }
gpu_state_of-IsRead (arr vs) = record { read = tt }
gpu_state_of-IsRead (obj fs) = record { read = tt }

module _ (parse_int : String → Option ℤ) where
  int_of-IsRead : (s : String) → IsRead (int_of parse_int s)
  int_of-IsRead s = by_parse (parse_int s)
    where
      by_parse :
          (o : Option ℤ)
          → IsRead
              (elim o as (λ _. Outcome RefreshError ℤ) [ none ↦ raise value_error | some n ↦ ok n ])
      by_parse none = record { read = tt }
      by_parse (some n) = record { read = tt }

  capability_of-IsRead : (parts : List String) → IsRead (capability_of parse_int parts)
  unfolding capability_of
  capability_of-IsRead [] = record { read = tt }
  capability_of-IsRead (a ∷ []) =
      bind-IsRead (int_of parse_int a) _ (int_of-IsRead a) (λ x. (record { read = tt }))
  capability_of-IsRead (a ∷ b ∷ rest) =
      bind-IsRead (int_of parse_int a) _ (int_of-IsRead a)
        (λ x. bind-IsRead (int_of parse_int b) _ (int_of-IsRead b) (λ y. (record { read = tt })))

  pub read_device-IsRead : (d : Payload) → IsTyped d → IsRead (read_device parse_int d)
  unfolding read_device
  read_device-IsRead d t = bind-IsRead _ _ (text-IsRead (lookup "share_id" d) t.share_id) (λ a.
      bind-IsRead _ _ (text_or-IsRead "0.0" (lookup "compute_capability" d) t.capability) (λ b.
        bind-IsRead _ _ (capability_of-IsRead (split_dots b)) (λ c.
          bind-IsRead _ _ (text-IsRead (lookup "peer_id" d) t.peer_id) (λ e.
            bind-IsRead _ _ (text_or-IsRead "unknown" (lookup "peer_username" d) t.peer_username)
              (λ f. bind-IsRead _ _ (number-IsRead (lookup "device_index" d) t.device_index) (λ g.
                bind-IsRead _ _ (text_or-IsRead "Unknown GPU" (lookup "name" d) t.name) (λ h.
                  bind-IsRead _ _
                    (gpu_type_of-IsRead (default_to (str "nvidia") (lookup "gpu_type" d)))
                    (λ i.
                      bind-IsRead _ _ (number-IsRead (lookup "total_memory_mb" d) t.total_memory_mb)
                        (λ j.
                          bind-IsRead _ _
                            (number-IsRead (lookup "available_memory_mb" d) t.available_memory_mb)
                            (λ k.
                              bind-IsRead _ _
                                (gpu_state_of-IsRead (default_to (str "idle") (lookup "state" d)))
                                (λ l.
                                  bind-IsRead _ _
                                    (optional_text-IsRead (lookup "current_task_id" d)
                                      t.current_task_id)
                                    (λ m.
                                      bind-IsRead _ _
                                        (number_or-IsRead 0 (lookup "utilization_percent" d)
                                          t.utilization_percent)
                                        (λ n.
                                          bind-IsRead _ _
                                            (text_or-IsRead "" (lookup "vpn_ip" d) t.vpn_ip)
                                            (λ o.
                                              bind-IsRead _ _
                                                (text_or-IsRead "" (lookup "vpn_network_id" d)
                                                  t.vpn_network_id)
                                                (λ p. (record { read = tt }))))))))))))))))
