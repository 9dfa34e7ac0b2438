-- ===== src/Node/Tests.antt =====
-- Assignments in flight on a concrete file.
use deepiri_zepgpu.Base.{◌≡◌, refl, true, none, some, [], ◌∷◌}
use deepiri_zepgpu.Base.Int.{pos}
use deepiri_zepgpu.Node.Inflight.{
  Assignment, Assignments, Update, existing_entry, updated_entry, save_inflight, upsert_inflight,
  list_inflight_ids,
}

abbrev claimed : Assignment
claimed = record {
  assignment_id = some "a1";
  status = some "claimed";
  updated_at = some "10:00";
  task_id = some "t1";
  claim_generation = some (pos 1);
  lease_expires_at = none;
}

abbrev file_of : Assignments
file_of = ("a1", claimed) ∷ []

abbrev runs : Update
runs = record {
  new_status = "running";
  new_task_id = none;
  new_claim_generation = none;
  new_lease_expires_at = some "11:00";
}

ids_sorted : list_inflight_ids (upsert_inflight true file_of "a0" runs "10:30") ≡ "a0" ∷ "a1" ∷ []
unfolding list_inflight_ids upsert_inflight save_inflight existing_entry updated_entry
ids_sorted = refl
