-- ===== src/Scheduling/Task/RoundTrip.antt =====
-- deepiri_zepgpu/core/task.py: what from_dict makes of a task's to_dict.
use deepiri_zepgpu.Base.Dict.{lookup}
use deepiri_zepgpu.Base.{
  leb, string_eq, nat_eq, ◌==◌, >>=-eq-ok, ok, ℕ, ◌≤◌, String, ◌≡◌, refl, true, false, Option, none,
  some, List, [], ◌∷◌, arith,
}
use deepiri_zepgpu.Base.Int.{pos, negsuc}
use deepiri_zepgpu.Ledger.Json.{
  payload_of, payload_of-to_fields, null, bool, num, arr, obj, Json, Payload, to_fields, str,
}
use deepiri_zepgpu.Scheduling.Task.{TaskStatus, TaskPriority, TaskResources, Task}
use deepiri_zepgpu.Scheduling.Task.Dictionary.{
  TaskError, IsoFormat, status_value, priority_name, text_json, number_json, items_of,
  resources_dict, task_status, task_priority, text_or_none, number_or_none, number_or, truth_or,
  text_or, or_json, object_or_empty, container_memory, make_resources, texts_of, tags_or_empty,
  to_dict, created_at_of, from_dict, name_or_default,
}

texts_of-items_of : (ss : List String) → texts_of (items_of ss) ≡ ok ss
unfolding texts_of
texts_of-items_of [] = refl
texts_of-items_of (s ∷ ss) = rw (texts_of-items_of ss) refl

task_status-status_value : (s : TaskStatus) → task_status (str (status_value s)) ≡ ok s
unfolding task_status
task_status-status_value TaskStatus.pending = refl
task_status-status_value TaskStatus.queued = refl
task_status-status_value TaskStatus.scheduled = refl
task_status-status_value TaskStatus.assigned = refl
task_status-status_value TaskStatus.running = refl
task_status-status_value TaskStatus.completed = refl
task_status-status_value TaskStatus.failed = refl
task_status-status_value TaskStatus.cancelled = refl
task_status-status_value TaskStatus.timeout = refl

task_priority-priority_name : (p : TaskPriority) → task_priority (str (priority_name p)) ≡ ok p
unfolding task_priority
task_priority-priority_name TaskPriority.low = refl
task_priority-priority_name TaskPriority.normal = refl
task_priority-priority_name TaskPriority.high = refl
task_priority-priority_name TaskPriority.urgent = refl
task_priority-priority_name TaskPriority.critical = refl

text_or_none-text_json : (o : Option String) → text_or_none (some (text_json o)) ≡ ok o
text_or_none-text_json none = refl
text_or_none-text_json (some s) = refl

number_or_none-number_json : (o : Option ℕ) → number_or_none (some (number_json o)) ≡ ok o
number_or_none-number_json none = refl
number_or_none-number_json (some n) = refl

make_resources-resources_dict :
    (r : TaskResources)
    → 64 ≤ r.container_memory_mb
    → r.container_memory_mb ≤ 262144
    → make_resources (payload_of (to_fields (resources_dict r))) ≡ ok r
unfolding make_resources container_memory resources_dict
make_resources-resources_dict r low high =
    let low' : leb 64 r.container_memory_mb ≡ true = ground arith in
    let high' : leb r.container_memory_mb 262144 ≡ true = ground arith in
    rw (low', high', text_or_none-text_json r.gpu_type) refl

-- What a task keeps of itself.
abbrev pub restored : Task → Task
restored t = record t {
  result = none;
  error = none;
  traceback = none;
  started_at = none;
  completed_at = none;
  remote_peer_vpn_ip = none;
  remote_gpu_share_id = none;
  room_id = none;
  dispatch_mode = "local";
  target_peer_id = none;
  target_gpu_share_id = none;
  container_id = none;
  callback_url = none;
}

module _ (iso : IsoFormat) where
  -- The dictionary of a task whose container memory is between 64 and 262144 is read back: the task
  -- that `from_dict` makes has the fields of the dictionary, and defaults for the others, for which
  -- `from_dict` takes also the error and the times of the start and the end. Times are read back
  -- from their texts, which are not empty.
  pub from_dict-to_dict :
      ((t : ℕ) → iso.fromisoformat (iso.isoformat t) ≡ some t)
      → ((t : ℕ) → (iso.isoformat t == "") ≡ false)
      → (new_id : String) (now : ℕ) (t : Task) → 64 ≤ t.resources.container_memory_mb
      → t.resources.container_memory_mb ≤ 262144
      → from_dict iso new_id now (to_dict iso t) ≡ ok (restored t)
  unfolding from_dict to_dict created_at_of tags_or_empty name_or_default
  from_dict-to_dict reads nonempty new_id now t low high =
      rw
        (
          make_resources-resources_dict t.resources low high,
          task_status-status_value t.status,
          task_priority-priority_name t.priority,
          text_or_none-text_json t.user_id,
          payload_of-to_fields t.metadata,
          nonempty t.created_at,
          reads t.created_at,
          number_or_none-number_json t.gpu_device_id,
          texts_of-items_of t.tags,
        )
        refl

container_memory-InRange :
    (o : Option Json) (n : ℕ) → container_memory o ≡ ok n → (64 ≤ n) × (n ≤ 262144)
unfolding container_memory
container_memory-InRange none n read = let e : n ≡ 1024 = ground (arith, read) in rw e (omega arith)
container_memory-InRange (some (num (pos m))) n read = ground (arith, read)
container_memory-InRange (some (num (negsuc m))) n read = cc
container_memory-InRange (some null) n read = cc
container_memory-InRange (some (bool b)) n read = cc
container_memory-InRange (some (str t)) n read = cc
container_memory-InRange (some (arr vs)) n read = cc
container_memory-InRange (some (obj fs)) n read = cc

make_resources-InRange :
    (d : Payload) (r : TaskResources)
    → make_resources d ≡ ok r
    → (64 ≤ r.container_memory_mb) × (r.container_memory_mb ≤ 262144)
unfolding make_resources
make_resources-InRange d r made =
    let (m, checked, made1) = >>=-eq-ok _ _ made in
    let (_, _, read) =
      >>=-eq-ok _ (λ _. container_memory (lookup "container_memory_mb" d)) checked in
    let (_, _, made2) = >>=-eq-ok (number_or (lookup "gpu_memory_mb" d) 1024) _ made1 in
    let (_, _, made3) = >>=-eq-ok (number_or (lookup "cpu_cores" d) 1) _ made2 in
    let (_, _, made4) = >>=-eq-ok (number_or (lookup "timeout_seconds" d) 3600) _ made3 in
    let (_, _, made5) = >>=-eq-ok (text_or_none (lookup "gpu_type" d)) _ made4 in
    let (_, _, made6) = >>=-eq-ok (truth_or (lookup "allow_fallback_cpu" d) true) _ made5 in
    let same : m ≡ r.container_memory_mb = ground (arith, made6) in
    rw (← same) (container_memory-InRange (lookup "container_memory_mb" d) m read)

module _ (iso : IsoFormat) where
  -- Whatever dictionary it is given, a task that `from_dict` returns has a container memory between
  -- 64 and 262144.
  pub from_dict-InRange :
      (new_id : String) (now : ℕ) (d : Payload) (t : Task)
      → from_dict iso new_id now d ≡ ok t
      → (64 ≤ t.resources.container_memory_mb) × (t.resources.container_memory_mb ≤ 262144)
  unfolding from_dict
  from_dict-InRange new_id now d t made =
      let (given, _, made1) =
        >>=-eq-ok (object_or_empty TaskError.type_error (lookup "resources" d)) _ made in
      let (r, sized, made2) = >>=-eq-ok (make_resources given) _ made1 in
      let (_, _, made3) = >>=-eq-ok (text_or (lookup "task_id" d) new_id) _ made2 in
      let (_, _, made4) = >>=-eq-ok (text_or_none (lookup "name" d)) _ made3 in
      let (_, _, made5) = >>=-eq-ok (text_or_none (lookup "user_id" d)) _ made4 in
      let (_, _, made6) =
        >>=-eq-ok (task_status (or_json (lookup "status" d) (str "pending"))) _ made5 in
      let (_, _, made7) =
        >>=-eq-ok (task_priority (or_json (lookup "priority" d) (str "NORMAL"))) _ made6 in
      let (_, _, made8) =
        >>=-eq-ok (object_or_empty TaskError.unread (lookup "metadata" d)) _ made7 in
      let (_, _, made9) = >>=-eq-ok (created_at_of iso now (lookup "created_at" d)) _ made8 in
      let (_, _, made10) = >>=-eq-ok (number_or_none (lookup "gpu_device_id" d)) _ made9 in
      let (_, _, made11) = >>=-eq-ok (tags_or_empty (lookup "tags" d)) _ made10 in
      let same : r ≡ t.resources = ground (arith, made11) in
      rw (← same) (make_resources-InRange given r sized)
