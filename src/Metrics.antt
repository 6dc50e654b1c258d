-- ===== src/Metrics.antt =====
-- internal/metrics/metrics.go: counters by task and by session. Counters are uint64 and wrap. A
-- method takes the readings of time.Now() that it makes; what it logs is a list of entries, oldest
-- first. A definition here is a method that runs with no other method of the recorder at the same time.
-- The totals are atomics and the maps have mutexes, but the counters of a task and of a session are
-- written through a pointer with no lock held, so that methods which overlap can do less than this:
-- Metrics/Race has the steps of TaskClaimed.
mod Types
pub mod Tests
pub mod Log
pub mod Sums
pub mod Totals
pub mod Race
pub mod Snapshots
unfoldable pub use Types.*
use dwcs.Base.{
  ℕ, zero, suc, ◌+◌, ◌-◌, ◌*◌, ◌/◌, ◌%◌, ◌^◌, ◌≤◌, ◌<◌, String, Bool, true, false, not, ◌&&◌, ◌||◌,
  Option, none, some, List, [], ◌∷◌, ◌++◌, map, append_assoc, append-nil, map-append, ◌≡◌, ◌≢◌, ◌↔◌,
  refl, sym, ap, ◌∙◌, subst, fun_ext, ◌⊎◌, inl, inr, arith, Result, ok, err, Slice, elems, Bytes,
  append_copy, next_uint64, Outcome, returned, panicked, Handler, recovered, Duration, pos, negsuc,
  second, Option-cases, Bool-cases, str_eq, str_eq_iff, str_eq_refl, str_eq_of_ne, if◌then◌else◌,
  ltb, leb, ◌==◌, ltb→lt, lt→ltb, leb→le, ==_iff, length, length-append, length-map, length-keep-le,
  keep, any, all, All, All-keep,
}
use dwcs.GoMap.{GoMap, lookup, insert, delete}

unfoldable pub new_recorder : Bool → ℕ → Recorder
new_recorder enabled now = record {
  enabled = enabled;
  started_at = now;
  total_claims = 0;
  total_completions = 0;
  total_rejections = 0;
  total_evictions = 0;
  total_releases = 0;
  total_broadcasts = 0;
  tasks = [];
  sessions = [];
  log = [];
}

-- r != nil && r.enabled
unfoldable pub is_enabled : Option Recorder → Bool
is_enabled none = false
is_enabled (some r) = r.enabled

unfoldable pub log_event : String → GoMap Value → Recorder → Recorder
log_event kind fields r = record r { log = r.log ++ record { kind = kind; fields = fields } ∷ [] }

-- getOrCreateTask, and what is written through the pointer that it returns.
unfoldable pub through_task : String → (TaskStats → TaskStats) → Recorder → Recorder
unfolding task_stats_or_new
through_task id f r = record r {
  tasks = insert id (f (task_stats_or_new (lookup id r.tasks))) r.tasks;
}

-- getOrCreateSession, likewise.
unfoldable pub through_session : String → (SessionStats → SessionStats) → Recorder → Recorder
unfolding session_stats_or_new
through_session id f r = record r {
  sessions = insert id (f (session_stats_or_new (lookup id r.sessions))) r.sessions;
}

unfoldable pub task_registered : String → Slice String → Recorder → Recorder
unfolding through_task log_event
task_registered task tags r =
    if r.enabled
    then log_event "task_registered" (("task", text task) ∷ ("tags", texts tags) ∷ [])
        (through_task task (λ ts. ts) r)
    else r

unfoldable pub task_claimed : String → String → ℕ → ℕ → Recorder → Recorder
unfolding through_task through_session log_event
task_claimed task owner lease now r =
    if r.enabled
    then log_event "task_claimed"
        (("task", text task) ∷ ("owner", text owner) ∷ ("lease", duration lease) ∷ [])
        (through_session owner
          (λ ss. record ss {
            claims = next_uint64 ss.claims;
            current_owned = next_uint64 ss.current_owned;
          })
          (through_task task
            (λ ts. record ts {
              claims = next_uint64 ts.claims;
              in_flight = insert owner now ts.in_flight;
            })
            (record r { total_claims = next_uint64 r.total_claims })))
    else r

-- The time since the claim in milliseconds, if one is in flight.
unfoldable pub compute_ms : String → TaskStats → ℕ → Option ℕ
compute_ms owner ts now = elim (lookup owner ts.in_flight) [
  | none ↦ none
  | some started ↦ some ((now - started) / 1000000)
]

unfoldable pub add_compute : Option ℕ → TaskStats → TaskStats
add_compute none ts = ts
add_compute (some ms) ts = record ts { total_compute_ms = (ts.total_compute_ms + ms) % 2 ^ 64 }

unfoldable pub compute_field : Option ℕ → GoMap Value
compute_field none = []
compute_field (some ms) = ("compute_ms", number ms) ∷ []

unfoldable pub complete_task : String → ℕ → TaskStats → TaskStats
unfolding compute_ms add_compute
complete_task owner now ts =
    add_compute (compute_ms owner ts now) (record ts {
      completions = next_uint64 ts.completions;
      in_flight = delete owner ts.in_flight;
    })

unfoldable pub task_completed : String → String → ℕ → Recorder → Recorder
unfolding through_task through_session log_event complete_task compute_field
task_completed task owner now r =
    if r.enabled
    then through_session owner (λ ss. record ss { completions = next_uint64 ss.completions })
        (log_event "task_completed"
          (("task", text task)
            ∷ ("owner", text owner)
            ∷ compute_field (compute_ms owner (task_stats_or_new (lookup task r.tasks)) now))
          (through_task task (complete_task owner now)
            (record r { total_completions = next_uint64 r.total_completions })))
    else r

unfoldable pub task_rejected : String → String → String → Recorder → Recorder
unfolding through_task through_session log_event
task_rejected task owner reason r =
    if r.enabled
    then log_event "task_rejected"
        (("task", text task) ∷ ("owner", text owner) ∷ ("reason", text reason) ∷ [])
        (through_session owner (λ ss. record ss { rejections = next_uint64 ss.rejections })
          (through_task task
            (λ ts. record ts {
              rejections = next_uint64 ts.rejections;
              in_flight = delete owner ts.in_flight;
            })
            (record r { total_rejections = next_uint64 r.total_rejections })))
    else r

-- if ss.CurrentOwned > 0 { ss.CurrentOwned-- }
unfoldable pub own_one_less : SessionStats → SessionStats
own_one_less ss =
    if ltb 0 ss.current_owned then record ss { current_owned = ss.current_owned - 1 } else ss

unfoldable pub task_released : String → String → Recorder → Recorder
unfolding through_task through_session log_event own_one_less
task_released task owner r =
    if r.enabled
    then log_event "task_released" (("task", text task) ∷ ("owner", text owner) ∷ []) (
        through_session owner own_one_less (
          through_task task
            (λ ts. record ts {
              releases = next_uint64 ts.releases;
              in_flight = delete owner ts.in_flight;
            })
            (record r { total_releases = next_uint64 r.total_releases })))
    else r

unfoldable pub task_evicted : String → String → String → Recorder → Recorder
unfolding through_task through_session log_event own_one_less
task_evicted task owner reason r =
    if r.enabled
    then log_event "task_evicted"
        (("task", text task) ∷ ("owner", text owner) ∷ ("reason", text reason) ∷ [])
        (through_session owner
          (λ ss. own_one_less (record ss { evictions = next_uint64 ss.evictions }))
          (through_task task
            (λ ts. record ts {
              evictions = next_uint64 ts.evictions;
              in_flight = delete owner ts.in_flight;
            })
            (record r { total_evictions = next_uint64 r.total_evictions })))
    else r

unfoldable pub world_updated : String → ℕ → ℕ → Recorder → Recorder
unfolding log_event
world_updated object prev_version new_version r =
    if r.enabled
    then log_event "world_updated"
        (("object", text object)
          ∷ ("prev_ver", number prev_version)
          ∷ ("new_ver", number new_version)
          ∷ [])
        r
    else r

unfoldable pub broadcast_done : ℕ → ℕ → Recorder → Recorder
unfolding log_event
broadcast_done subscribers objects r =
    if r.enabled
    then log_event "broadcast"
        (("subscribers", number subscribers) ∷ ("objects", number objects) ∷ [])
        (record r { total_broadcasts = next_uint64 r.total_broadcasts })
    else r

unfoldable pub session_connected : String → Recorder → Recorder
unfolding through_session log_event
session_connected session r =
    if r.enabled
    then log_event "session_connected" (("session", text session) ∷ [])
        (through_session session (λ ss. ss) r)
    else r

unfoldable pub session_disconnected : String → ℕ → Recorder → Recorder
unfolding log_event
session_disconnected session tasks_released r =
    let r' =
      log_event "session_disconnected"
        (("session", text session) ∷ ("tasks_released", number tasks_released) ∷ []) r in
    if r.enabled then record r' { sessions = delete session r'.sessions } else r
