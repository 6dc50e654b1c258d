-- ===== src/Dispatcher/Tests.antt =====
-- The theorems on the dispatcher at concrete inputs.
use dwcs.Base.{
  suc, String, true, false, none, some, [], ◌∷◌, ◌≡◌, ◌≢◌, refl, arith, str_eq, str_eq_iff,
}
use dwcs.GoMap.{lookup}
use dwcs.Session.{Session}
use dwcs.World.Versions.{run}
use dwcs.Task.{Task, owned}
use dwcs.Merge.{merge_func}
use dwcs.Merge.Submit.{as_calls}
use dwcs.Merge.Tests.{take_all, updates}
use dwcs.Protocol.{Envelope, decode}
use dwcs.Protocol.Tests.{fixed_codec}
use dwcs.Metrics.{new_recorder}
use dwcs.Backend.{Server}
use dwcs.Dispatcher.{handle, handle_submit}
use dwcs.Dispatcher.Submit.{submit_by_stranger, submit_by_owner}
use dwcs.Dispatcher.Frame.{SameCore, handle-frame}

abbrev pub ann : Session
ann = record { id = "ann"; connected_at = 1; tags = ("x", tt) ∷ []; outbox = []; closed = false }

abbrev pub bob : Session
bob = record ann { id = "bob" }

abbrev pub anns_task : Task
anns_task = record {
  id = "t";
  tags = some ("x" ∷ []);
  hint = none;
  status = owned;
  owner_id = "ann";
  lease_until = 50;
  created_at = 1;
  updated_at = 20;
}

abbrev pub server : Server
server = record {
  outer = record {
    manager = record { sessions = ("ann", ann) ∷ ("bob", bob) ∷ [] };
    metrics = new_recorder true 1;
  };
  registry = record {
    tasks = ("t", anns_task) ∷ [];
    lost_handlers = [];
    avail_handlers = [];
    closed = false;
  };
  world = record { objects = []; handlers = [] };
  merge_fn = some take_all;
  projector = record { rate = 100; seen = []; stopped = false };
}

abbrev submission : Envelope
submission = record { msg_type = "submit_result"; request_id = "r"; payload = some (7 ∷ []) }

abbrev ping : Envelope
ping = record { msg_type = "ping"; request_id = "r"; payload = none }

ann_is_not_bob : ◌≢◌ {A = String} "ann" "bob"
unfolding str_eq
ann_is_not_bob = ground (arith, str_eq_iff "ann" "bob")

ping_is_no_submission : ◌≢◌ {A = String} "ping" "submit_result"
unfolding str_eq
ping_is_no_submission = ground (arith, str_eq_iff "ping" "submit_result")

owner_is_ann : (t : Task) → lookup "t" server.registry.tasks ≡ some t → t.owner_id ≢ "bob"
unfolding lookup str_eq
owner_is_ann t found e = ann_is_not_bob (ground (arith, e))

submit_by_stranger_example :
    SameCore server (handle_submit fixed_codec server "bob" submission (λ i. i)).1
unfolding lookup str_eq decode
submit_by_stranger_example =
    (submit_by_stranger fixed_codec server "bob" submission (λ i. i)
      (record { task_id = "t"; payload = some (7 ∷ []); meta = none }) bob refl refl owner_is_ann).0

submit_by_owner_example :
    (handle_submit fixed_codec server "ann" submission (λ i. i)).1.world
    ≡ (run (server.world, server.outer) (as_calls (λ i. suc i) updates)).0
unfolding lookup str_eq decode merge_func
submit_by_owner_example =
    (submit_by_owner fixed_codec server "ann" submission (λ i. i)
        (record { task_id = "t"; payload = some (7 ∷ []); meta = none }) anns_task refl refl refl).0
      refl

handle-frame_example : (handle fixed_codec server "ann" ping (λ i. i)).1.world ≡ server.world
handle-frame_example = (handle-frame fixed_codec server "ann" ping (λ i. i)).0 ping_is_no_submission
