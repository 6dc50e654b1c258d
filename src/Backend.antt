-- ===== src/Backend.antt =====
-- cmd/server/main.go: the state of the server, and the callbacks that main wires up. The callbacks
-- act on the session manager and the metrics.
use dwcs.Base.{
  ℕ, String, Bool, Option, some, ok, err, Outcome, returned, Duration, str_eq, length,
  if◌then◌else◌,
}
use dwcs.Session.{Session, Manager, new_manager, broadcast, send_to}
use dwcs.Session
use dwcs.Metrics.{
  Recorder, new_recorder, world_updated, task_evicted, task_registered, session_connected,
  session_disconnected,
}
use dwcs.Protocol.{
  Codec, ownership_lost, task_available, msg_ownership_lost, msg_task_available, encode, encoded,
}
use dwcs.World.{World, ChangeEvent, ChangeKind, created, updated, deleted}
use dwcs.World
use dwcs.Task.{
  Registry, LostEvent, AvailableEvent, new_registry, on_ownership_lost, on_available, release_all,
}
use dwcs.Merge.{MergeFunc}
use dwcs.Projector.{Projector, new_projector, forget_session}

-- What the callbacks act on.
pub record Outer : Type 0 where
  pub manager : Manager
  pub metrics : Recorder

pub record Server : Type 0 where
  pub outer : Outer
  pub registry : Registry Outer
  pub world : World Outer
  pub merge_fn : Option MergeFunc
  pub projector : Projector

unfoldable pub note_change : ChangeKind → ChangeEvent → Outer → Outer
note_change created evt o = record o {
  metrics = world_updated evt.object.id evt.prev_version evt.object.version o.metrics;
}
note_change updated evt o = record o {
  metrics = world_updated evt.object.id evt.prev_version evt.object.version o.metrics;
}
note_change deleted evt o = o

unfoldable pub on_world_change : ChangeEvent → Outer → Outcome Outer
unfolding note_change
on_world_change evt o = returned (note_change evt.kind evt o)

module _ (c : Codec) where
  -- The callback on a lost task: it is counted as evicted, and its owner, if still here, is told.
  unfoldable pub on_lost : LostEvent → Outer → Outer
  on_lost evt o =
      let o₁ = record o { metrics = task_evicted evt.task_id evt.owner_id evt.reason o.metrics } in
      elim (Session.get o.manager evt.owner_id) [
        | err e ↦ o₁
        | ok s ↦ record o₁ {
          manager =
              send_to evt.owner_id
                (encoded c msg_ownership_lost ""
                  (some (ownership_lost (record { task_id = evt.task_id; reason = evt.reason }))))
                o.manager;
        }
      ]

  unfoldable pub note_registered : AvailableEvent → Outer → Outer
  note_registered evt o =
      if str_eq evt.reason "registered"
      then record o { metrics = task_registered evt.task_id evt.tags o.metrics }
      else o

  -- The callback on an available task: it is announced to the sessions with one of its tags.
  unfoldable pub on_task_available : AvailableEvent → Outer → Outcome Outer
  unfolding note_registered
  on_task_available evt o =
      let o₁ = note_registered evt o in
      elim (encode c msg_task_available "" (
        some
          (task_available (record { task_id = evt.task_id; tags = evt.tags; hint = evt.hint })))) [
            | err e ↦ returned o₁
            | ok msg ↦ returned (record o₁ { manager = broadcast evt.tags msg o₁.manager })
          ]

  -- What main sets up, with the merge function that the operator puts in (nil as it stands).
  unfoldable pub new_server : Option MergeFunc → Bool → Duration → ℕ → Server
  new_server fn metrics_on tick_rate now = record {
    outer = record { manager = new_manager; metrics = new_recorder metrics_on now };
    registry = on_available (on_ownership_lost new_registry on_lost) on_task_available;
    world = World.on_change World.new on_world_change;
    merge_fn = fn;
    projector = new_projector tick_rate;
  }

unfoldable pub on_connect : String → Server → Server
on_connect id v = record v {
  outer = record v.outer { metrics = session_connected id v.outer.metrics };
}

-- The tasks of the session are released before it leaves the manager's map.
unfoldable pub on_disconnect : String → (String → ℕ) → Server → Server
on_disconnect id stamp v =
    let (released, r, o) = release_all v.registry v.outer id stamp in
    record v {
      registry = r;
      outer = record o { metrics = session_disconnected id (length released) o.metrics };
      projector = forget_session id v.projector;
    }
