-- ===== src/Task.antt =====
-- internal/task/task.go: the task registry with its leases. `S` is the state that the callbacks act
-- on. Time is in nanoseconds, and 0 is Go's zero time; a call takes its readings of time.Now() in
-- the order in which it makes them. A callback on a lost task is not recovered, so one that panics
-- ends the process: these are total functions.
mod Types
pub mod Acquire
pub mod Coherence
pub mod Leases
pub mod Announced
pub mod Disconnect
pub mod Sections
pub mod Race
pub mod Spec
pub mod Progress
pub mod Calm
pub mod Owners
pub mod Tests
pub mod SpecTests
unfoldable pub use Types.*
use dwcs.Base.{
  ℕ, zero, suc, ◌+◌, ◌-◌, ◌*◌, ◌/◌, ◌%◌, ◌^◌, ◌≤◌, ◌<◌, String, Bool, true, false, not, ◌&&◌, ◌||◌,
  Option, none, some, List, [], ◌∷◌, ◌++◌, map, append_assoc, append-nil, map-append, ◌≡◌, ◌≢◌, ◌↔◌,
  refl, sym, ap, ◌∙◌, subst, fun_ext, ◌⊎◌, inl, inr, arith, Result, ok, err, Slice, elems, Bytes,
  append_copy, next_uint64, Outcome, returned, panicked, Handler, recovered, Duration, pos, negsuc,
  second, Option-cases, Bool-cases, str_eq, str_eq_iff, str_eq_refl, str_eq_of_ne, if◌then◌else◌,
  ltb, leb, ◌==◌, ltb→lt, lt→ltb, leb→le, ==_iff, length, length-append, length-map, length-keep-le,
  keep, any, all, All, All-keep,
}
use dwcs.GoMap.{GoMap, lookup, insert, map_values, values}
use dwcs.Tags.{to_set, passes_filter}

pub record Registry (S : Type 0) : Type 0 where
  pub tasks : GoMap Task
  pub lost_handlers : List (LostHandler S)
  pub avail_handlers : List (Handler AvailableEvent S)
  pub closed : Bool

module _ {S : Type 0} where
  unfoldable pub new_registry : Registry S
  new_registry = record { tasks = []; lost_handlers = []; avail_handlers = []; closed = false }

  unfoldable pub close : Registry S → Registry S
  close r = if r.closed then r else record r { closed = true }

  unfoldable pub on_ownership_lost : Registry S → LostHandler S → Registry S
  on_ownership_lost r h = record r { lost_handlers = r.lost_handlers ++ h ∷ [] }

  unfoldable pub on_available : Registry S → Handler AvailableEvent S → Registry S
  on_available r h = record r { avail_handlers = r.avail_handlers ++ h ∷ [] }

  unfoldable pub fire_lost : LostEvent → List (LostHandler S) → S → S
  fire_lost evt [] s = s
  fire_lost evt (h ∷ hs) s = fire_lost evt hs (h evt s)

  -- Every handler runs, also after one that panicked.
  unfoldable pub fire_available : AvailableEvent → List (Handler AvailableEvent S) → S → S
  fire_available evt [] s = s
  fire_available evt (h ∷ hs) s = fire_available evt hs (recovered (h evt s))

  unfoldable pub register :
      Registry S
      → S
      → String
      → Slice String
      → Bytes
      → ℕ
      → ℕ
      → Result TaskError (Unit {0}) × Registry S × S
  unfolding append_copy
  register r s id tags hint now stamp = elim (lookup id r.tasks) [
    | some t ↦ (err task_already_exists, r, s)
    | none ↦
        let t : Task = record {
          id = id;
          tags = append_copy tags;
          hint = append_copy hint;
          status = available;
          owner_id = "";
          lease_until = 0;
          created_at = now;
          updated_at = stamp;
        } in
        (
          ok tt,
          record r { tasks = insert id t r.tasks },
          fire_available
              (record { task_id = id; tags = t.tags; hint = t.hint; reason = "registered" })
              r.avail_handlers s,
        )
  ]

  unfoldable pub get : Registry S → String → Result TaskError Task
  get r id = elim (lookup id r.tasks) [ none ↦ err task_not_found | some t ↦ ok t ]

  unfoldable pub list_available : Registry S → Slice String → List Task
  unfolding is_available
  list_available r filter_tags =
      keep (λ t. is_available t.status && passes_filter t.tags (to_set filter_tags))
        (values r.tasks)

  unfoldable pub acquire_check : Registry S → String → ℕ → Checked
  unfolding check_task
  acquire_check r id now = elim (lookup id r.tasks) [
    | none ↦ refused task_not_found
    | some t ↦ check_task t now
  ]

  unfoldable pub reclaim : Registry S → String → Task → Registry S
  unfolding freed
  reclaim r id t = record r { tasks = insert id (freed t) r.tasks }

  -- What the callbacks hear, with no lock held.
  unfoldable pub announce_expired : Registry S → String → Task → S → S
  unfolding available_of
  announce_expired r id t s = fire_available (available_of id t "lease_expired") r.avail_handlers (
      fire_lost (record { task_id = id; owner_id = t.owner_id; reason = "lease_expired" })
        r.lost_handlers s)

  -- The last critical section of Acquire: the task is fetched again, and its status is not looked at.
  unfoldable pub acquire_grant :
      Registry S → String → String → Duration → ℕ → ℕ → Result TaskError AcquireResult × Registry S
  unfolding lease_for granted_to
  acquire_grant r id owner dur now stamp = elim (lookup id r.tasks) [
    | none ↦ (err task_not_found, r)
    | some t ↦
        let t' = granted_to owner (now + lease_for dur) stamp t in
        (
          ok (record { task = t'; lease_until = now + lease_for dur }),
          record r { tasks = insert id t' r.tasks },
        )
  ]

  -- Acquire when no other call comes between its two critical sections.
  unfoldable pub acquire :
      Registry S
      → S
      → String
      → String
      → Duration
      → ℕ
      → ℕ
      → ℕ
      → Result TaskError AcquireResult × Registry S × S
  unfolding acquire_check acquire_grant reclaim announce_expired
  acquire r s id owner dur checked now stamp = elim (acquire_check r id checked) [
    | refused e ↦ (err e, r, s)
    | free ↦ let (res, r') = acquire_grant r id owner dur now stamp in (res, r', s)
    | reclaimed t ↦
        let (res, r') = acquire_grant (reclaim r id t) id owner dur now stamp in
        (res, r', announce_expired r id t s)
  ]

  unfoldable pub release :
      Registry S → S → String → String → ℕ → Result TaskError (Unit {0}) × Registry S × S
  unfolding freed available_of
  release r s id owner now = elim (lookup id r.tasks) [
    | none ↦ (err task_not_found, r, s)
    | some t ↦
        if str_eq t.owner_id owner
        then (
          ok tt,
          record r { tasks = insert id (record (freed t) { updated_at = now }) r.tasks },
          fire_available (available_of id t "released") r.avail_handlers s,
        )
        else (err not_owner, r, s)
  ]

  unfoldable pub mark_completed :
      Registry S → String → String → ℕ → Result TaskError (Unit {0}) × Registry S
  unfolding freed
  mark_completed r id owner now = elim (lookup id r.tasks) [
    | none ↦ (err task_not_found, r)
    | some t ↦
        if str_eq t.owner_id owner
        then (
          ok tt,
          record r {
            tasks = insert id (record (freed t) { status = completed; updated_at = now }) r.tasks;
          },
        )
        else (err not_owner, r)
  ]

  unfoldable pub announce_disconnected : Registry S → String → List Task → S → S
  unfolding available_of
  announce_disconnected r owner [] s = s
  announce_disconnected r owner (t ∷ ts) s = announce_disconnected r owner ts (
      fire_lost (record { task_id = t.id; owner_id = owner; reason = "disconnected" })
        r.lost_handlers (fire_available (available_of t.id t "disconnected") r.avail_handlers s))

  unfoldable pub release_all : Registry S → S → String → (String → ℕ) → List String × Registry S × S
  unfolding free_if is_owned_by
  release_all r s owner stamp =
      let released = keep (is_owned_by owner) (values r.tasks) in
      (
        map (λ t. t.id) released,
        record r { tasks = map_values (free_if (is_owned_by owner) stamp) r.tasks },
        announce_disconnected r owner released s,
      )

  unfoldable pub announce_evicted : Registry S → List Task → S → S
  unfolding available_of
  announce_evicted r [] s = s
  announce_evicted r (t ∷ ts) s = announce_evicted r ts (
      fire_available (available_of t.id t "lease_expired") r.avail_handlers
        (fire_lost (lost_of t "lease_expired") r.lost_handlers s))

  unfoldable pub evict_expired : Registry S → S → ℕ → (String → ℕ) → Registry S × S
  unfolding free_if is_lapsed
  evict_expired r s now stamp = (
    record r { tasks = map_values (free_if (is_lapsed now) stamp) r.tasks },
    announce_evicted r (keep (is_lapsed now) (values r.tasks)) s,
  )

  unfoldable pub lease_watcher : Registry S → S → List Wake → Registry S × S
  lease_watcher r s [] = (r, s)
  lease_watcher r s (done ∷ ws) = (r, s)
  lease_watcher r s (ticks now stamp ∷ ws) =
      let (r', s') = evict_expired r s now stamp in lease_watcher r' s' ws
