-- ===== src/Node/Inflight.antt =====
-- deepiri_zepgpu/node_agent/inflight.py: the assignments in flight, kept in a JSON file. The state is
-- what `load_inflight` reads from the file; `writable` is whether `save_inflight` succeeds, which
-- replaces the whole file or leaves it as it was.
use deepiri_zepgpu.Base.{
  if◌then◌else◌, string_eq, nat_eq, String, Bool, Option, none, some, List, [], map,
}
use deepiri_zepgpu.Base.Dict.{Dict, lookup, insert, erase, contains}
use deepiri_zepgpu.Base.Int.{ℤ}
use deepiri_zepgpu.Base.Sorting.{sort_by}
use Prim.Native.String.{compare}
use text.Mathlib.Text.{is_le}

-- The keys of an entry; one that the dict lacks is none.
pub record Assignment : Type 0 where
  pub assignment_id : Option String
  pub status : Option String
  pub updated_at : Option String
  pub task_id : Option String
  pub claim_generation : Option ℤ
  pub lease_expires_at : Option String

abbrev pub Assignments : Type 0
Assignments = Dict String Assignment

unfoldable pub empty_assignment : Assignment
empty_assignment = record {
  assignment_id = none;
  status = none;
  updated_at = none;
  task_id = none;
  claim_generation = none;
  lease_expires_at = none;
}

-- `if value is not None: existing[key] = value`
unfoldable pub set_if_given {ℓ} : {A : Type ℓ} → Option A → Option A → Option A
set_if_given none old = old
set_if_given (some value) old = some value

unfoldable pub save_inflight : Bool → Assignments → Assignments → Assignments
save_inflight writable file assignments = if writable then assignments else file

unfoldable pub existing_entry : Assignments → String → Assignment
unfolding empty_assignment
existing_entry file id = elim (lookup id file) [ none ↦ empty_assignment | some entry ↦ entry ]

-- The keyword arguments of `upsert_inflight`.
pub record Update : Type 0 where
  pub new_status : String
  pub new_task_id : Option String
  pub new_claim_generation : Option ℤ
  pub new_lease_expires_at : Option String

unfoldable pub updated_entry : Assignment → String → Update → String → Assignment
unfolding set_if_given
updated_entry existing id update now = record existing {
  assignment_id = some id;
  status = some update.new_status;
  updated_at = some now;
  task_id = set_if_given update.new_task_id existing.task_id;
  claim_generation = set_if_given update.new_claim_generation existing.claim_generation;
  lease_expires_at = set_if_given update.new_lease_expires_at existing.lease_expires_at;
}

unfoldable pub upsert_inflight : Bool → Assignments → String → Update → String → Assignments
unfolding save_inflight existing_entry updated_entry
upsert_inflight writable file id update now =
    save_inflight writable file
      (insert id (updated_entry (existing_entry file id) id update now) file)

unfoldable pub remove_inflight : Bool → Assignments → String → Assignments
unfolding save_inflight
remove_inflight writable file id =
    if contains id file then save_inflight writable file (erase id file) else file

unfoldable pub clear_inflight : Bool → Assignments → Assignments
unfolding save_inflight
clear_inflight writable file = save_inflight writable file []

-- `sorted` of texts.
abbrev pub text_first : String → String → Bool
text_first a b = is_le (compare a b)

unfoldable pub list_inflight_ids : Assignments → List String
list_inflight_ids file = sort_by text_first (map (λ entry. entry.0) file)
