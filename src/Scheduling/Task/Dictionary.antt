-- ===== src/Scheduling/Task/Dictionary.antt =====
-- deepiri_zepgpu/core/task.py: to_dict and from_dict of a task. The texts of times, isoformat and
-- fromisoformat of datetime, are parameters.
use Prim.Native.String.{◌++◌ as append}
use deepiri_zepgpu.Base.Dict.{lookup}
use deepiri_zepgpu.Base.Int.{pos}
use deepiri_zepgpu.Base.{
  leb, if◌then◌else◌, string_eq, nat_eq, ◌==◌, all, elem, Outcome, ◌>>=◌, ◌>>◌, raise_if, ok, raise,
  ℕ, zero, suc, String, Bool, true, not, ◌&&◌, Option, none, some, List, [], ◌∷◌,
}
use deepiri_zepgpu.Ledger.Json.{
  payload_of, to_fields, truthy, Json, null, bool, num, str, arr, obj, Items, nil, cons, Payload,
}
use deepiri_zepgpu.Scheduling.Task.{Task, TaskStatus, TaskPriority, TaskResources}

-- What `from_dict` raises; `unread` is for a value that is not of the annotated type, which Python
-- would keep as it is.
pub data TaskError : Type 0 where
  type_error value_error key_error unread : TaskError

-- The texts of times.
pub record IsoFormat : Type 0 where
  pub isoformat : ℕ → String
  pub fromisoformat : String → Option ℕ

-- `status.value`
abbrev pub status_value : TaskStatus → String
status_value TaskStatus.pending = "pending"
status_value TaskStatus.queued = "queued"
status_value TaskStatus.scheduled = "scheduled"
status_value TaskStatus.assigned = "assigned"
status_value TaskStatus.running = "running"
status_value TaskStatus.completed = "completed"
status_value TaskStatus.failed = "failed"
status_value TaskStatus.cancelled = "cancelled"
status_value TaskStatus.timeout = "timeout"

-- `priority.name`
abbrev pub priority_name : TaskPriority → String
priority_name TaskPriority.low = "LOW"
priority_name TaskPriority.normal = "NORMAL"
priority_name TaskPriority.high = "HIGH"
priority_name TaskPriority.urgent = "URGENT"
priority_name TaskPriority.critical = "CRITICAL"

-- None or the text.
abbrev pub text_json : Option String → Json
text_json none = null
text_json (some s) = str s

abbrev pub number_json : Option ℕ → Json
number_json none = null
number_json (some n) = num (pos n)

abbrev pub items_of : List String → Items
items_of [] = nil
items_of (s ∷ ss) = cons (str s) (items_of ss)

unfoldable pub resources_dict : TaskResources → Payload
resources_dict r =
    ("gpu_memory_mb", num (pos r.gpu_memory_mb))
    ∷ ("cpu_cores", num (pos r.cpu_cores))
    ∷ ("timeout_seconds", num (pos r.timeout_seconds))
    ∷ ("gpu_type", text_json r.gpu_type)
    ∷ ("allow_fallback_cpu", bool r.allow_fallback_cpu)
    ∷ ("container_memory_mb", num (pos r.container_memory_mb))
    ∷ []

-- `TaskStatus(value)`
unfoldable pub task_status : Json → Outcome TaskError TaskStatus
task_status (str s) =
    if s == "pending"
    then ok TaskStatus.pending
    else if s == "queued"
    then ok TaskStatus.queued
    else if s == "scheduled"
    then ok TaskStatus.scheduled
    else if s == "assigned"
    then ok TaskStatus.assigned
    else if s == "running"
    then ok TaskStatus.running
    else if s == "completed"
    then ok TaskStatus.completed
    else if s == "failed"
    then ok TaskStatus.failed
    else if s == "cancelled"
    then ok TaskStatus.cancelled
    else if s == "timeout"
    then ok TaskStatus.timeout
    else raise TaskError.value_error
task_status null = raise TaskError.value_error
task_status (bool b) = raise TaskError.value_error
task_status (num n) = raise TaskError.value_error
task_status (arr vs) = raise TaskError.value_error
task_status (obj fs) = raise TaskError.value_error

-- `TaskPriority[name]`
unfoldable pub task_priority : Json → Outcome TaskError TaskPriority
task_priority (str s) =
    if s == "LOW"
    then ok TaskPriority.low
    else if s == "NORMAL"
    then ok TaskPriority.normal
    else if s == "HIGH"
    then ok TaskPriority.high
    else if s == "URGENT"
    then ok TaskPriority.urgent
    else if s == "CRITICAL"
    then ok TaskPriority.critical
    else raise TaskError.key_error
task_priority null = raise TaskError.key_error
task_priority (bool b) = raise TaskError.key_error
task_priority (num n) = raise TaskError.key_error
task_priority (arr vs) = raise TaskError.key_error
task_priority (obj fs) = raise TaskError.key_error

-- `d.get(k, default)`, of a number, a text or None, and a Boolean.
abbrev pub number_or : Option Json → ℕ → Outcome TaskError ℕ
number_or none default = ok default
number_or (some v) default = elim v [ num (pos n) ↦ ok n | _ ↦ raise TaskError.unread ]

abbrev pub text_or_none : Option Json → Outcome TaskError (Option String)
text_or_none none = ok none
text_or_none (some v) = elim v [ null ↦ ok none | str s ↦ ok (some s) | _ ↦ raise TaskError.unread ]

abbrev pub text_or : Option Json → String → Outcome TaskError String
text_or none default = ok default
text_or (some v) default = elim v [ str s ↦ ok s | _ ↦ raise TaskError.unread ]

abbrev pub or_json : Option Json → Json → Json
or_json none default = default
or_json (some v) default = v

abbrev pub number_or_none : Option Json → Outcome TaskError (Option ℕ)
number_or_none none = ok none
number_or_none (some v) = elim v [
  | null ↦ ok none
  | num (pos n) ↦ ok (some n)
  | _ ↦ raise TaskError.unread
]

abbrev pub truth_or : Option Json → Bool → Outcome TaskError Bool
truth_or none default = ok default
truth_or (some v) default = elim v [ bool b ↦ ok b | _ ↦ raise TaskError.unread ]

abbrev pub resource_names : List String
resource_names =
    "gpu_memory_mb" ∷ "cpu_cores" ∷ "timeout_seconds" ∷ "gpu_type" ∷ "allow_fallback_cpu"
    ∷ "container_memory_mb" ∷ []

-- `__post_init__` of TaskResources: an integer between 64 and 262144, and no Boolean.
unfoldable pub container_memory : Option Json → Outcome TaskError ℕ
container_memory none = ok 1024
container_memory (some v) = elim v [
  | num (pos n) ↦ if leb 64 n && leb n 262144 then ok n else raise TaskError.value_error
  | _ ↦ raise TaskError.value_error
]

-- `TaskResources(**d)`
unfoldable pub make_resources : Payload → Outcome TaskError TaskResources
unfolding container_memory
make_resources d =
    raise_if (not (all (λ (entry : String × Json). elem entry.0 resource_names) d))
      TaskError.type_error
    >> container_memory (lookup "container_memory_mb" d)
    >>= λ container_memory_mb. number_or (lookup "gpu_memory_mb" d) 1024 >>= λ gpu_memory_mb.
        number_or (lookup "cpu_cores" d) 1 >>= λ cpu_cores.
        number_or (lookup "timeout_seconds" d) 3600 >>= λ timeout_seconds.
        text_or_none (lookup "gpu_type" d) >>= λ gpu_type.
        truth_or (lookup "allow_fallback_cpu" d) true >>= λ allow_fallback_cpu. ok (record {
          gpu_memory_mb = gpu_memory_mb;
          cpu_cores = cpu_cores;
          timeout_seconds = timeout_seconds;
          gpu_type = gpu_type;
          allow_fallback_cpu = allow_fallback_cpu;
          container_memory_mb = container_memory_mb;
        })

-- `d.get(k, {})`
abbrev pub object_or_empty : TaskError → Option Json → Outcome TaskError Payload
object_or_empty e none = ok []
object_or_empty e (some v) = elim v [ obj fs ↦ ok (payload_of fs) | _ ↦ raise e ]

unfoldable pub texts_of : Items → Outcome TaskError (List String)
texts_of nil = ok []
texts_of (cons v vs) = elim v [
  | str s ↦ texts_of vs >>= λ texts. ok (s ∷ texts)
  | _ ↦ raise TaskError.unread
]

-- `d.get("tags", [])`
unfoldable pub tags_or_empty : Option Json → Outcome TaskError (List String)
unfolding texts_of
tags_or_empty none = ok []
tags_or_empty (some v) = elim v [ arr vs ↦ texts_of vs | _ ↦ raise TaskError.unread ]

-- `s[:n]`
unfoldable pub first_chars : ℕ → String → String
first_chars zero s = ""
first_chars (suc n) String.[] = ""
first_chars (suc n) (String.◌∷◌ c s) = String.◌∷◌ c (first_chars n s)

-- `name`, after `__post_init__`.
unfoldable pub name_or_default : String → Option String → String
unfolding first_chars
name_or_default task_id none = append "task_" (first_chars 8 task_id)
name_or_default task_id (some name) = name

module _ (iso : IsoFormat) where
  -- `t.isoformat() if t else None`
  abbrev pub time_json : Option ℕ → Json
  time_json none = null
  time_json (some t) = str (iso.isoformat t)

  unfoldable pub to_dict : Task → Payload
  unfolding resources_dict
  to_dict t =
      ("task_id", str t.task_id)
      ∷ ("name", str t.name)
      ∷ ("user_id", text_json t.user_id)
      ∷ ("status", str (status_value t.status))
      ∷ ("priority", str (priority_name t.priority))
      ∷ ("resources", obj (to_fields (resources_dict t.resources)))
      ∷ ("metadata", obj (to_fields t.metadata))
      ∷ ("created_at", str (iso.isoformat t.created_at))
      ∷ ("started_at", time_json t.started_at)
      ∷ ("completed_at", time_json t.completed_at)
      ∷ ("gpu_device_id", number_json t.gpu_device_id)
      ∷ ("error", text_json t.error)
      ∷ ("tags", arr (items_of t.tags))
      ∷ []

  -- `datetime.fromisoformat(data["created_at"]) if data.get("created_at") else datetime.now(UTC)`
  unfoldable pub created_at_of : ℕ → Option Json → Outcome TaskError ℕ
  created_at_of now none = ok now
  created_at_of now (some v) = if not (truthy v) then ok now else elim v [
    | str s ↦ elim (iso.fromisoformat s) [ none ↦ raise TaskError.value_error | some t ↦ ok t ]
    | _ ↦ raise TaskError.type_error
  ]

  -- `new_id` and `now` are what `uuid4` and the clock give.
  unfoldable pub from_dict : String → ℕ → Payload → Outcome TaskError Task
  unfolding make_resources task_status task_priority tags_or_empty created_at_of name_or_default
  from_dict new_id now d = object_or_empty TaskError.type_error (lookup "resources" d) >>= λ given.
      make_resources given >>= λ resources. text_or (lookup "task_id" d) new_id >>= λ task_id.
      text_or_none (lookup "name" d) >>= λ name. text_or_none (lookup "user_id" d) >>= λ user_id.
      task_status (or_json (lookup "status" d) (str "pending")) >>= λ status.
      task_priority (or_json (lookup "priority" d) (str "NORMAL")) >>= λ priority.
      object_or_empty TaskError.unread (lookup "metadata" d) >>= λ metadata.
      created_at_of now (lookup "created_at" d) >>= λ created_at.
      number_or_none (lookup "gpu_device_id" d) >>= λ gpu_device_id.
      tags_or_empty (lookup "tags" d) >>= λ tags. ok (record {
        resources = resources;
        priority = priority;
        user_id = user_id;
        task_id = task_id;
        name = name_or_default task_id name;
        metadata = metadata;
        created_at = created_at;
        status = status;
        result = none;
        error = none;
        traceback = none;
        started_at = none;
        completed_at = none;
        gpu_device_id = gpu_device_id;
        remote_peer_vpn_ip = none;
        remote_gpu_share_id = none;
        room_id = none;
        dispatch_mode = "local";
        target_peer_id = none;
        target_gpu_share_id = none;
        container_id = none;
        callback_url = none;
        tags = tags;
      })
