-- ===== src/Peer/Tests.antt =====
-- A node of the peer mode at concrete inputs.
use dwcs.Base.{
  ℕ, zero, suc, ◌+◌, ◌-◌, ◌*◌, ◌/◌, ◌%◌, ◌^◌, ◌≤◌, ◌<◌, String, Bool, true, false, not, ◌&&◌, ◌||◌,
  Option, none, some, List, [], ◌∷◌, ◌++◌, map, append_assoc, append-nil, map-append, ◌≡◌, ◌≢◌, ◌↔◌,
  refl, sym, ap, ◌∙◌, subst, fun_ext, ◌⊎◌, inl, inr, arith, Result, ok, err, Slice, elems, Bytes,
  append_copy, next_uint64, Outcome, returned, panicked, Handler, recovered, Duration, pos, negsuc,
  second, Option-cases, Bool-cases, if-cases, str_eq, str_eq_iff, str_eq_refl, str_eq_of_ne,
  if◌then◌else◌, ltb, leb, ◌==◌, ltb→lt, lt→ltb, leb→le, ==_iff, length, length-append, length-map,
  length-keep-le, keep, any, all, All, All-keep, All-map,
}
use dwcs.GoMap.{lookup}
use dwcs.World.{Object, prev_version_of, on_change, new}
use dwcs.Merge.{merge_func}
use dwcs.Merge.Tests.{take_all, updates}
use dwcs.Merge.Submit.{as_calls}
use dwcs.World.Versions.{run}
use dwcs.Metrics.{new_recorder}
use dwcs.Protocol.{Envelope, ObjectDiff, decode}
use dwcs.Protocol.Tests.{fixed_codec}
use dwcs.Gossip.{new_gossip}
use dwcs.Peering.Peers.{Manager, new_manager, tcp}
use dwcs.AddrBook.Names.{name}
use dwcs.Peering.Peers.Connections.{handle_inbound}
use dwcs.Peer.Lines.{handle_lines, handle_events-handle_inbound}
use dwcs.Peer.{handle_events, Node, new_node, handle_world_update, handle_remote_submit}
use dwcs.Peer.Apart.{handle_world_update_crossed}
use dwcs.Peer.Remote.{remote_update_by_one, remote_submit_lem}

abbrev pub clock : ℕ → ℕ
clock i = i + 100

abbrev pub node : Node Manager
node = new_node tcp fixed_codec none new_gossip (new_recorder true 0) new_manager none

abbrev pub news : Envelope
news = record { msg_type = "world_update"; request_id = "m1"; payload = some (5 ∷ []) }

abbrev pub door : ObjectDiff
door = record { object_id = "door"; payload = some (5 ∷ []); version = 9; meta = none }

remote_update_by_one_example :
    let n = handle_world_update tcp fixed_codec "a" news clock node in
    (o : Object) × (lookup "door" n.world.objects ≡ some o) × (o.version ≡ 1)
unfolding lookup new_node decode prev_version_of on_change new
remote_update_by_one_example =
    let (o, found, next, says, also) =
      remote_update_by_one tcp fixed_codec "a" news door clock node refl (omega arith)
        (omega arith) in
    (o, found, next)

abbrev pub blank : Envelope
blank = record { msg_type = "submit_result"; request_id = "m2"; payload = none }

abbrev pub merging : Node Manager
merging = record node { merge_fn = some take_all }

remote_submit_lem_example :
    (handle_remote_submit tcp fixed_codec "a" blank clock merging).world
    ≡ (run (merging.world, merging.reach) (as_calls (λ i. clock (suc i)) updates)).0
unfolding decode merge_func
remote_submit_lem_example =
    (remote_submit_lem tcp fixed_codec "a" blank
        (record { task_id = "t"; payload = none; meta = none }) clock merging refl).0
      refl

-- The same door at another node, with other data.
abbrev pub my_door : Object
my_door = record {
  id = "door";
  payload = some (5 ∷ []);
  version = 9;
  tags = none;
  meta = none;
  updated_at = 3;
}

abbrev pub your_door : Object
your_door = record my_door { payload = some (6 ∷ []) }

abbrev pub me : Node Manager
me = record node { world = record node.world { objects = ("door", my_door) ∷ [] } }

abbrev pub you : Node Manager
you = record node { world = record node.world { objects = ("door", your_door) ∷ [] } }

abbrev pub your_news : Envelope
your_news = record news { payload = some (6 ∷ []) }

handle_world_update_crossed_example :
    (handle_world_update tcp fixed_codec "b" your_news clock me ≡ me)
    × (handle_world_update tcp fixed_codec "a" news clock you ≡ you)
unfolding lookup decode dwcs.Base.str_eq
handle_world_update_crossed_example =
    handle_world_update_crossed tcp fixed_codec "door" my_door your_door "a" "b" news your_news
      clock me you refl refl refl refl refl refl refl

handle_events-handle_inbound_example :
    handle_events tcp fixed_codec
      (λ b. "m")
      (handle_inbound
        (λ t k. name k)
        fixed_codec
        "10.0.0.1"
        5
        (none ∷ some (7 ∷ []) ∷ [])
        new_manager).events
      clock
      (λ i j. i + j)
      merging
    ≡ handle_lines tcp fixed_codec
        (λ b. "m")
        ""
        (none ∷ some (7 ∷ []) ∷ [])
        (λ i. clock (suc i))
        (λ i j. suc i + j)
        merging
unfolding new_manager
handle_events-handle_inbound_example =
    handle_events-handle_inbound tcp fixed_codec (λ b. "m") (λ t k. name k) "10.0.0.1" "" 5
      (none ∷ some (7 ∷ []) ∷ []) new_manager clock (λ i j. i + j) merging refl refl (omega arith)
