-- ===== src/Training/FileGuard.antt =====
-- deepiri_zepgpu/training/integrity.py: FileReplayGuard, a guard that is kept in a file. The file is
-- what json.loads makes of it; writes succeed.
use Prim.Native.String.{◌++◌ as ◌+ₛ◌, compare}
use text.Mathlib.Text.{is_le}
use deepiri_zepgpu.Base.Int.{ℤ, pos, negsuc}
use deepiri_zepgpu.Base.Dict.{insert}
use deepiri_zepgpu.Base.Sorting.{sort_by}
use deepiri_zepgpu.Base.{
  string_eq, nat_eq, Outcome, ◌>>=◌, ok, raise, ℕ, String, Bool, Option, none, some, List, [], ◌∷◌,
}
use deepiri_zepgpu.Ledger.Json.{payload_of, Json, str, obj, Payload, to_fields, to_str, Conversions}
use deepiri_zepgpu.Training.Integrity.{
  UpdateIntegrityError, NeutralOuterUpdate, Triple, triple_eq, ReplayGuard, check,
}
use deepiri_zepgpu.Training.Texts.{split_bar}

-- No file, one that cannot be read or is no JSON, and the value in it.
pub data StoredFile : Type 0 where
  missing unreadable : StoredFile
  holds : Json → StoredFile

-- `str(n)` of a round and `int(s)`, `none` where it raises ValueError.
pub record RoundTexts : Type 0 where
  pub round_text : ℕ → String
  pub read_int : String → Option ℤ

pub data LoadError : Type 0 where
  value_error : LoadError

unfoldable pub by_key : String × Json → String × Json → Bool
by_key a b = is_le (compare a.0 b.0)

-- `parts` of length three
abbrev pub three_parts : List String → Option (String × String × String)
three_parts (a ∷ b ∷ c ∷ []) = some (a, b, c)
three_parts [] = none
three_parts (a ∷ []) = none
three_parts (a ∷ b ∷ []) = none
three_parts (a ∷ b ∷ c ∷ d ∷ parts) = none

module _ (texts : RoundTexts) where
  -- `f"{run_id}|{round_number}|{worker_id}"`
  unfoldable pub text_key : Triple → String
  text_key k = k.run_id +ₛ ("|" +ₛ (texts.round_text k.round +ₛ ("|" +ₛ k.worker_id)))

  -- The comprehension of `check`, after `payload`.
  unfoldable pub key_entries : ReplayGuard → Payload → Payload
  unfolding text_key
  key_entries [] payload = payload
  key_entries ((k, digest) ∷ seen) payload =
      key_entries seen (insert (text_key k) (str digest) payload)

  -- `json.dumps(payload, sort_keys=True)`
  unfoldable pub save_guard : ReplayGuard → StoredFile
  unfolding key_entries by_key
  save_guard seen = holds (obj (to_fields (sort_by by_key (key_entries seen []))))

  -- `check` of the guard with a file: its entries and the file after it.
  unfoldable pub check_in_file :
      NeutralOuterUpdate
      → String
      → ReplayGuard
      → Outcome UpdateIntegrityError (ReplayGuard × StoredFile)
  unfolding save_guard
  check_in_file update mac_hex seen =
      check update mac_hex seen >>= λ seen'. ok (seen', save_guard seen')

module _ (py : Conversions) (texts : RoundTexts) where
  -- One round of the loop of `__init__`. A negative round, which no update has, is passed over.
  unfoldable pub load_entry : String × Json → ReplayGuard → Outcome LoadError ReplayGuard
  load_entry (key, mac_hex) seen = elim (three_parts (split_bar key)) [
    | none ↦ ok seen
    | some (run_id, round, worker_id) ↦ elim (texts.read_int round) [
      | none ↦ raise value_error
      | some (negsuc n) ↦ ok seen
      | some (pos n) ↦ ok (
          insert (record { run_id = run_id; round = n; worker_id = worker_id }) (to_str py mac_hex)
            seen)
    ]
  ]

  unfoldable pub load_entries : Payload → ReplayGuard → Outcome LoadError ReplayGuard
  unfolding load_entry
  load_entries [] seen = ok seen
  load_entries (entry ∷ entries) seen = load_entry entry seen >>= load_entries entries

  -- `__init__`
  unfoldable pub load_guard : StoredFile → Outcome LoadError ReplayGuard
  unfolding load_entries
  load_guard missing = ok []
  load_guard unreadable = ok []
  load_guard (holds v) = elim v [ obj fs ↦ load_entries (payload_of fs) [] | _ ↦ ok [] ]
