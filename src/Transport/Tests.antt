-- ===== src/Transport/Tests.antt =====
-- The life of a server at a concrete input: a client connects, a task is registered, the client
-- acquires it, and another client comes and goes.
use dwcs.Base.{
  ℕ, zero, suc, ◌+◌, ◌-◌, ◌*◌, ◌/◌, ◌%◌, ◌^◌, ◌≤◌, ◌<◌, String, Bool, true, false, not, ◌&&◌, ◌||◌,
  Option, none, some, List, [], ◌∷◌, ◌++◌, map, append_assoc, append-nil, map-append, ◌≡◌, ◌≢◌, ◌↔◌,
  refl, sym, ap, ◌∙◌, subst, fun_ext, ◌⊎◌, inl, inr, arith, Result, ok, err, Slice, elems, Bytes,
  append_copy, next_uint64, Outcome, returned, panicked, Handler, recovered, Duration, pos, negsuc,
  second, Option-cases, Bool-cases, if-cases, str_eq, str_eq_iff, str_eq_refl, str_eq_of_ne,
  if◌then◌else◌, ltb, leb, ◌==◌, ltb→lt, lt→ltb, leb→le, ==_iff, length, length-append, length-map,
  length-keep-le, keep, any, all, All, All-keep, All-map,
}
use dwcs.GoMap.{lookup}
use dwcs.Session.{Session}
use dwcs.Protocol.{Codec}
use dwcs.Protocol.Tests.{fixed_codec}
use dwcs.Task.{Task, owned}
use dwcs.Backend.{new_server}
use dwcs.Transport.{Event, connects, reads, disconnects, registers, run, handle_conn}
use dwcs.Task.Owners.{IsOwnedBy}
use dwcs.Transport.Departure.{handle_conn-leaves}
use dwcs.Transport.Life.{run-new_server_owners}

-- Every line reads as a request for the task "t".
abbrev pub acquiring : Codec
acquiring = record fixed_codec {
  unmarshal_envelope =
      λ b. ok (record { msg_type = "acquire_task"; request_id = "r"; payload = b });
}

abbrev pub events : List Event
events =
    connects "ann" 5
    ∷ registers "t" none none 6 6
    ∷ reads "ann" none (λ i. i + 10)
    ∷ connects "bob" 20
    ∷ disconnects "bob" (λ id. 30)
    ∷ []

abbrev pub anns_task : Task
anns_task = record {
  id = "t";
  tags = none;
  hint = none;
  status = owned;
  owner_id = "ann";
  lease_until = 30000000011;
  created_at = 6;
  updated_at = 12;
}

run-new_server_owners_example :
    (s : Session) × (lookup "ann"
        (run acquiring (new_server acquiring none true (pos 0) 1) events).outer.manager.sessions
      ≡ some s)
unfolding dwcs.GoMap.lookup dwcs.GoMap.insert dwcs.GoMap.delete dwcs.GoMap.map_values
    dwcs.GoMap.adjust dwcs.Base.str_eq dwcs.Base.recovered dwcs.Base.append_copy dwcs.Base.keep
    dwcs.Transport.run dwcs.Transport.step dwcs.Transport.disconnect dwcs.Transport.connect
    dwcs.Transport.read_line dwcs.Transport.complain dwcs.Backend.new_server dwcs.Backend.on_connect
    dwcs.Backend.on_disconnect dwcs.Backend.on_task_available dwcs.Backend.on_lost
    dwcs.Backend.note_registered dwcs.Dispatcher.handle dwcs.Dispatcher.dispatch
    dwcs.Dispatcher.handle_acquire dwcs.Dispatcher.reply dwcs.Session.add dwcs.Session.remove
    dwcs.Session.send_to dwcs.Session.new_session dwcs.Session.send dwcs.Session.broadcast
    dwcs.Session.each dwcs.Session.each_entry dwcs.Session.close dwcs.Task.release_all
    dwcs.Task.register dwcs.Task.on_available dwcs.Task.on_ownership_lost dwcs.Task.new_registry
    dwcs.Task.fire_available dwcs.Task.fire_lost dwcs.Task.acquire dwcs.Task.acquire_check
    dwcs.Task.acquire_grant dwcs.Task.check_task dwcs.Task.is_owned dwcs.Task.granted_to
    dwcs.Task.lease_for dwcs.Task.free_if dwcs.Task.is_owned_by dwcs.Task.announce_disconnected
    dwcs.Protocol.decode dwcs.Protocol.encode dwcs.Protocol.encoded dwcs.Metrics.session_connected
    dwcs.Metrics.session_disconnected dwcs.Metrics.task_registered dwcs.Metrics.task_claimed
    dwcs.Metrics.new_recorder dwcs.Session.get dwcs.Session.new_manager dwcs.Session.is_addressed
run-new_server_owners_example =
    run-new_server_owners acquiring none true (pos 0) 1 events "t" anns_task refl refl

handle_conn-leaves_example :
    let v =
      handle_conn acquiring "bob" 40
        ((none, λ i. i + 50) ∷ [])
        (λ id. 60)
        (run acquiring (new_server acquiring none true (pos 0) 1) events) in
    (lookup "bob" v.outer.manager.sessions ≡ none) × IsOwnedBy (λ owner. owner ≢ "bob") v.registry
handle_conn-leaves_example =
    handle_conn-leaves acquiring none true (pos 0) 1 events "bob" 40 ((none, λ i. i + 50) ∷ [])
      (λ id. 60)
