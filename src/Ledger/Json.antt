-- ===== src/Ledger/Json.antt =====
-- JSON values as Python holds them: payloads of deepiri_zepgpu/compute_ledger/transaction.py.
-- Numbers are whole: a float of seconds stands for its integer value.
use deepiri_zepgpu.Base.{
  if◌then◌else◌, string_eq, nat_eq, ◌==◌, zero, suc, String, ◌≡◌, refl, ap, Bool, true, false, not,
  Option, none, some, [], ◌∷◌,
}
use deepiri_zepgpu.Base.Int.{ℤ, pos, negsuc}
use deepiri_zepgpu.Base.Dict.{Dict, lookup}

mutual
  pub data Json : Type 0 where
    null : Json
    bool : Bool → Json
    num : ℤ → Json
    str : String → Json
    arr : Items → Json
    obj : Fields → Json

  pub data Items : Type 0 where
    nil : Items
    cons : Json → Items → Items

  pub data Fields : Type 0 where
    end : Fields
    field : String → Json → Fields → Fields

abbrev pub Payload : Type 0
Payload = Dict String Json

-- A payload as a nested value.
abbrev pub to_fields : Payload → Fields
to_fields [] = end
to_fields ((k, v) ∷ p) = field k v (to_fields p)

abbrev pub payload_of : Fields → Payload
payload_of end = []
payload_of (field k v fs) = (k, v) ∷ payload_of fs

pub payload_of-to_fields : (p : Payload) → payload_of (to_fields p) ≡ p
payload_of-to_fields [] = refl
payload_of-to_fields ((k, v) ∷ p) = ap (λ q. (k, v) ∷ q) (payload_of-to_fields p)

-- Python's truth of a value.
abbrev pub truthy : Json → Bool
truthy null = false
truthy (bool b) = b
truthy (num (pos zero)) = false
truthy (num (pos (suc n))) = true
truthy (num (negsuc n)) = true
truthy (str s) = not (s == "")
truthy (arr nil) = false
truthy (arr (cons v vs)) = true
truthy (obj end) = false
truthy (obj (field k v fs)) = true

-- `payload.get(k) or default`
abbrev pub get_or_default : Payload → String → Json → Json
get_or_default p k default = elim (lookup k p) [
  | none ↦ default
  | some v ↦ if truthy v then v else default
]

-- Python's conversions that depend on its number formats: `str(v)` of a value that is no text, and
-- `float(s)` of a text, `none` where it raises ValueError.
pub record Conversions : Type 0 where
  pub text_of : Json → String
  pub parse_float : String → Option ℤ

module _ (py : Conversions) where
  -- `str(v)`
  abbrev pub to_str : Json → String
  to_str (str s) = s
  to_str v = py.text_of v

  -- `float(v)`; `none` where it raises
  abbrev pub to_float : Json → Option ℤ
  to_float null = none
  to_float (bool true) = some (pos 1)
  to_float (bool false) = some (pos 0)
  to_float (num n) = some n
  to_float (str s) = py.parse_float s
  to_float (arr vs) = none
  to_float (obj fs) = none

  -- `str(payload.get(k) or default)`
  abbrev pub str_field : Payload → String → String → String
  str_field p k default = to_str (get_or_default p k (str default))

  -- `float(payload.get(k) or 0.0)`
  abbrev pub float_field : Payload → String → Option ℤ
  float_field p k = to_float (get_or_default p k (num (pos 0)))
