-- ===== src/Peer.antt =====
-- internal/peer/peer.go: a node of the peer mode. It takes in the messages of other nodes, applies
-- them to its world, and passes them on. `clock` gives the readings of time.Now().
pub mod Remote
pub mod Apart
pub mod Lines
pub mod Tests
use dwcs.Base.{
  ℕ, suc, String, Bool, true, false, Option, none, some, List, [], ◌∷◌, ok, err, Slice, Bytes,
  Outcome, returned, str_eq, if◌then◌else◌, leb,
}
use dwcs.World.{World, Object, ChangeEvent, ChangeKind, created, updated, deleted, apply, get}
use dwcs.World
use dwcs.Merge.{MergeFunc, submit}
use dwcs.Metrics.{Recorder, world_updated, task_completed}
use dwcs.Protocol.{
  Codec, Envelope, ObjectDiff, SubmitResultPayload, submit_result, world_update, msg_world_update,
  msg_submit_result, decode,
}
use dwcs.Peering.{PeeringManager}
use dwcs.Peering.Events.{PeerEvent, event_peer_connected, event_peer_closed, event_peer_message}
use dwcs.Gossip.{Gossip, should_forward, broadcast_except}

-- What the callback on the world acts on.
pub record Reach (N : Type 0) : Type 0 where
  pub metrics : Recorder
  pub network : N

pub record Node (N : Type 0) : Type 0 where
  pub world : World (Reach N)
  pub merge_fn : Option MergeFunc
  pub gossip : Gossip
  pub reach : Reach N
  pub tags : Slice String

-- The object of a change as the payload of an update.
abbrev pub diff_of : Object → ObjectDiff
diff_of o = record { object_id = o.id; payload = o.payload; version = o.version; meta = o.meta }

-- err == nil && existing.Version >= diff.Version
unfoldable pub is_stale : {S : Type 0} → World S → ObjectDiff → Bool
is_stale w diff = elim (get w diff.object_id) [ err e ↦ false | ok o ↦ leb diff.version o.version ]

module _ {N : Type 0} (mgr : PeeringManager N) (c : Codec) where
  announce : Object → String → String → N → N
  announce o request_id except n =
      (broadcast_except mgr c msg_world_update request_id
        (world_update (record { objects = diff_of o ∷ [] })) except n).1

  note_change : ChangeKind → ChangeEvent → Reach N → Reach N
  unfolding announce
  note_change created evt r = record r {
    metrics = world_updated evt.object.id evt.prev_version evt.object.version r.metrics;
    network = announce evt.object "" "" r.network;
  }
  note_change updated evt r = record r {
    metrics = world_updated evt.object.id evt.prev_version evt.object.version r.metrics;
    network = announce evt.object "" "" r.network;
  }
  note_change deleted evt r = r

  -- The callback that Run sets up.
  unfoldable pub on_world_change : ChangeEvent → Reach N → Outcome (Reach N)
  unfolding note_change
  on_world_change evt r = returned (note_change evt.kind evt r)

  -- The node that New builds, once Run has set up the callback.
  unfoldable pub new_node : Option MergeFunc → Gossip → Recorder → N → Slice String → Node N
  new_node fn g mr n tags = record {
    world = World.on_change World.new on_world_change;
    merge_fn = fn;
    gossip = g;
    reach = record { metrics = mr; network = n };
    tags = tags;
  }

  pass_on : String → String → ObjectDiff → Reach N → Reach N
  pass_on request_id from diff r = record r {
    network =
        (broadcast_except mgr c msg_world_update request_id
          (world_update (record { objects = diff ∷ [] })) from r.network).1;
  }

  -- A newer diff becomes an update of the world, with the node's own tags and no expected version.
  unfoldable pub take_diff : String → String → ObjectDiff → ℕ → Node N → Node N
  unfolding pass_on
  take_diff request_id from diff now n =
      let (res, w, r) = apply n.world n.reach now (record {
        object_id = diff.object_id;
        payload = diff.payload;
        expected_version = 0;
        tags = n.tags;
        meta = diff.meta;
      }) in
      record n { world = w; reach = pass_on request_id from diff r }

  -- The loop of handleWorldUpdate: a diff that is not newer than the object is skipped.
  unfoldable pub take_diffs : String → String → List ObjectDiff → (ℕ → ℕ) → Node N → Node N
  unfolding take_diff
  take_diffs request_id from [] clock n = n
  take_diffs request_id from (diff ∷ diffs) clock n = elim (is_stale n.world diff) [
    | true ↦ take_diffs request_id from diffs (λ i. clock (suc i)) n
    | false ↦
        take_diffs request_id from diffs (λ i. clock (suc i))
          (take_diff request_id from diff (clock 0) n)
  ]

  unfoldable pub handle_world_update : String → Envelope → (ℕ → ℕ) → Node N → Node N
  unfolding take_diffs
  handle_world_update from env clock n = elim (decode c.world_update env) [
    | err e ↦ n
    | ok p ↦ take_diffs env.request_id from p.objects clock n
  ]

  -- Submit by `owner`, and the completion that is counted if it is accepted.
  submit_as : String → SubmitResultPayload → (ℕ → ℕ) → Node N → Node N
  submit_as owner p clock n =
      let (res, w, r) =
        submit n.merge_fn n.world n.reach (λ i. clock (suc i))
          (record { task_id = p.task_id; owner_id = owner; payload = p.payload; meta = p.meta }) in
      record n {
        world = w;
        reach =
            if res.accepted
            then record r { metrics = task_completed p.task_id owner (clock 0) r.metrics }
            else r;
      }

  unfoldable pub handle_remote_submit : String → Envelope → (ℕ → ℕ) → Node N → Node N
  unfolding submit_as
  handle_remote_submit from env clock n = elim (decode c.submit_result env) [
    | err e ↦ n
    | ok p ↦
        let n₁ = submit_as from p clock n in
        record n₁ {
          reach = record n₁.reach {
            network =
                (broadcast_except mgr c msg_submit_result env.request_id (submit_result p) from
                  n₁.reach.network).1;
          };
        }
  ]

  unfoldable pub submit_local_result : String → Bytes → (ℕ → ℕ) → Node N → Node N
  unfolding submit_as
  submit_local_result task_id payload clock n =
      submit_as "local" (record { task_id = task_id; payload = payload; meta = none }) clock n

  -- handlePeerMessage: a message that was seen before is dropped.
  unfoldable pub handle_peer_message :
      (Bytes → String) → String → Envelope → ℕ → (ℕ → ℕ) → Node N → Node N
  unfolding handle_world_update handle_remote_submit
  handle_peer_message text from env now clock n =
      let (fresh, g) = should_forward text env now n.gossip in
      let n₁ = record n { gossip = g } in
      if fresh
      then (if str_eq env.msg_type msg_world_update
          then handle_world_update from env clock n₁
          else if str_eq env.msg_type msg_submit_result
          then handle_remote_submit from env clock n₁
          else n₁)
      else n₁

  -- The body of eventLoop: that a peer is connected or closed is only logged.
  unfoldable pub handle_event : (Bytes → String) → PeerEvent → ℕ → (ℕ → ℕ) → Node N → Node N
  unfolding handle_peer_message
  handle_event text evt now clock n =
      if str_eq evt.kind event_peer_connected
      then n
      else if str_eq evt.kind event_peer_closed
      then n
      else if str_eq evt.kind event_peer_message
      then handle_peer_message text evt.peer_id evt.env now clock n
      else n

  -- eventLoop on the events that it receives, the i-th of which reads the times `now i` and `clock i`.
  unfoldable pub handle_events :
      (Bytes → String) → List PeerEvent → (ℕ → ℕ) → (ℕ → ℕ → ℕ) → Node N → Node N
  unfolding handle_event
  handle_events text [] now clock n = n
  handle_events text (evt ∷ evts) now clock n =
      handle_events text evts (λ i. now (suc i)) (λ i. clock (suc i))
        (handle_event text evt (now 0) (clock 0) n)
