-- ===== src/Task/Types.antt =====
-- internal/task/task.go: the data of the registry, and what happens to one task.
use dwcs.Base.{
  ℕ, zero, suc, ◌*◌, String, Bool, true, false, ◌&&◌, Slice, Bytes, append_copy, Duration, pos,
  negsuc, second, str_eq, if◌then◌else◌, ltb,
}

pub data TaskError : Type 0 where
  task_not_found task_not_available not_owner task_already_exists : TaskError

-- err.Error()
unfoldable pub error_text : TaskError → String
error_text task_not_found = "task not found"
error_text task_not_available = "task not available: already owned"
error_text not_owner = "client does not own this task"
error_text task_already_exists = "task already registered"

pub data Status : Type 0 where
  available owned completed : Status

pub record Task : Type 0 where
  pub id : String
  pub tags : Slice String
  pub hint : Bytes
  pub status : Status
  pub owner_id : String
  pub lease_until : ℕ
  pub created_at : ℕ
  pub updated_at : ℕ

abbrev pub default_lease_duration : ℕ
default_lease_duration = 30 * second

pub record AcquireResult : Type 0 where
  pub task : Task
  pub lease_until : ℕ

pub record LostEvent : Type 0 where
  pub task_id : String
  pub owner_id : String
  pub reason : String

pub record AvailableEvent : Type 0 where
  pub task_id : String
  pub tags : Slice String
  pub hint : Bytes
  pub reason : String

abbrev pub LostHandler : Type 0 → Type 0
LostHandler S = LostEvent → S → S

-- The assignments that take a task from its owner, without UpdatedAt.
unfoldable pub freed : Task → Task
freed t = record t { status = available; owner_id = ""; lease_until = 0 }

unfoldable pub is_owned : Status → Bool
is_owned owned = true
is_owned available = false
is_owned completed = false

-- !t.LeaseUntil.IsZero() && now.After(t.LeaseUntil)
unfoldable pub is_expired : Task → ℕ → Bool
is_expired t now = ltb 0 t.lease_until && ltb t.lease_until now

unfoldable pub lease_for : Duration → ℕ
lease_for (pos zero) = default_lease_duration
lease_for (pos (suc n)) = suc n
lease_for (negsuc n) = default_lease_duration

unfoldable pub granted_to : String → ℕ → ℕ → Task → Task
granted_to owner until stamp t = record t {
  status = owned;
  owner_id = owner;
  lease_until = until;
  updated_at = stamp;
}

abbrev pub lost_of : Task → String → LostEvent
lost_of t reason = record { task_id = t.id; owner_id = t.owner_id; reason = reason }

unfoldable pub available_of : String → Task → String → AvailableEvent
unfolding append_copy
available_of id t reason = record {
  task_id = id;
  tags = append_copy t.tags;
  hint = append_copy t.hint;
  reason = reason;
}

unfoldable pub is_available : Status → Bool
is_available available = true
is_available owned = false
is_available completed = false

-- The first critical section of Acquire: it refuses, goes on under the lock, or takes the task
-- from an owner whose lease has run out and unlocks to tell the callbacks.
pub data Checked : Type 0 where
  refused : TaskError → Checked
  free : Checked
  reclaimed : Task → Checked

unfoldable pub check_task : Task → ℕ → Checked
unfolding is_owned is_expired
check_task t now =
    if is_owned t.status
    then (if is_expired t now then reclaimed t else refused task_not_available)
    else free

-- The body of the loops of ReleaseAll and evictExpired; `stamp` is the time read at each task.
unfoldable pub free_if : (Task → Bool) → (String → ℕ) → Task → Task
unfolding freed
free_if p stamp t = if p t then record (freed t) { updated_at = stamp t.id } else t

unfoldable pub is_owned_by : String → Task → Bool
unfolding is_owned
is_owned_by owner t = is_owned t.status && str_eq t.owner_id owner

unfoldable pub is_lapsed : ℕ → Task → Bool
unfolding is_owned is_expired
is_lapsed now t = is_owned t.status && is_expired t now

-- What the select of leaseWatcher receives: a tick, with the times that evictExpired reads, or
-- the closing of `done`.
pub data Wake : Type 0 where
  ticks : ℕ → (String → ℕ) → Wake
  done : Wake
