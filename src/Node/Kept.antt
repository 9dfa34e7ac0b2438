-- ===== src/Node/Kept.antt =====
-- What the operations of node_agent/inflight.py keep of the assignments in flight.
use deepiri_zepgpu.Base.{
  string_eq, nat_eq, Bool-cases, String, ◌≡◌, refl, ◌≢◌, inl, inr, true, Option, none, some,
}
use deepiri_zepgpu.Base.Dict.{
  lookup, contains, NodupKeys, lookup-insert_self, lookup-insert_ne, lookup-erase_self,
  lookup-erase_ne,
}
use deepiri_zepgpu.Base.DictSize.{lookup-contains}
use deepiri_zepgpu.Node.Inflight.{
  Assignment, Assignments, Update, set_if_given, save_inflight, existing_entry, updated_entry,
  upsert_inflight, remove_inflight,
}

-- A key keeps its value unless the update gives one.
abbrev pub Kept {ℓ} : {A : Type ℓ} → Option A → Option A → Option A → Type ℓ
Kept none old new = new ≡ old
Kept (some value) old new = new ≡ some value

set_if_given-Kept : {A : Type 0} (given old : Option A) → Kept given old (set_if_given given old)
unfolding set_if_given
set_if_given-Kept none old = refl
set_if_given-Kept (some value) old = refl

-- After an update that can be written the assignment has the new status, and of its other keys the
-- given ones, the others as they were; the other assignments are as they were.
pub upsert_inflight-Kept :
    (file : Assignments) (id now : String) (update : Update) (old : Assignment)
    → lookup id file ≡ some old
    → ((entry : Assignment) × (lookup id (upsert_inflight true file id update now) ≡ some entry)
        × (entry.status ≡ some update.new_status)
        × Kept update.new_task_id old.task_id entry.task_id
        × Kept update.new_claim_generation old.claim_generation entry.claim_generation
        × Kept update.new_lease_expires_at old.lease_expires_at entry.lease_expires_at)
      × ((other : String)
          → id ≢ other
          → lookup other (upsert_inflight true file id update now) ≡ lookup other file)
unfolding upsert_inflight save_inflight updated_entry existing_entry
upsert_inflight-Kept file id now update old there = (
  (
    updated_entry old id update now,
    rw (upsert_inflight, existing_entry, there)
        (lookup-insert_self id (updated_entry old id update now) file),
    refl,
    set_if_given-Kept update.new_task_id old.task_id,
    set_if_given-Kept update.new_claim_generation old.claim_generation,
    set_if_given-Kept update.new_lease_expires_at old.lease_expires_at,
  ),
  λ other ne. lookup-insert_ne other id _ file ne,
)

-- A removal that can be written takes out the assignment, there or not, and no other; the ids of the
-- file are distinct.
pub remove_inflight-removes :
    (file : Assignments) (id : String)
    → NodupKeys file
    → (lookup id (remove_inflight true file id) ≡ none)
      × ((other : String)
          → id ≢ other
          → lookup other (remove_inflight true file id) ≡ lookup other file)
unfolding remove_inflight save_inflight
remove_inflight-removes file id distinct = elim (Bool-cases (contains id file)) [
  | inl there ↦
      rw (remove_inflight, there)
        (lookup-erase_self id file distinct, λ other ne. lookup-erase_ne other id file ne)
  | inr absent ↦ rw (remove_inflight, absent) (lookup-contains id file absent, λ other ne. refl)
]
