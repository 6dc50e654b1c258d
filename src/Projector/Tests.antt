-- ===== src/Projector/Tests.antt =====
-- The theorems on the projection at concrete inputs.
use dwcs.Base.{
  ℕ, zero, suc, true, false, none, List, [], ◌∷◌, ◌≡◌, refl, ap, arith, Bytes, str_eq, str_eq_iff,
  length, keep,
}
use dwcs.GoMap.{lookup, map_values}
use dwcs.Tags.{to_set, add_tags, passes_filter}
use dwcs.World.{list}
use dwcs.World.Tests.{house, door, opening}
use dwcs.Session.{Session, Manager}
use dwcs.Protocol.Tests.{fixed_codec}
use dwcs.Metrics.{new_recorder}
use dwcs.Projector.{Projector, Round, last_seen, seen_by, compute_diffs, visit, tick}
use dwcs.Projector.News.{news, compute_diffs_due}
use dwcs.Projector.Ticks.{visit_full}
use dwcs.Projector.Delivery.{posted, tick-posted}
use dwcs.Projector.Recreated.{Omits, recreated_unseen}

abbrev guest : Session
guest = record {
  id = "guest";
  connected_at = 1;
  tags = ("room", tt) ∷ [];
  outbox = [];
  closed = false;
}

-- 512 messages wait.
abbrev messages : ℕ → List Bytes
messages zero = []
messages (suc n) = none ∷ messages n

length-messages : (n : ℕ) → length (messages n) ≡ n
length-messages zero = refl
length-messages (suc n) = ap suc (length-messages n)

abbrev lobby : Manager
lobby = record { sessions = ("guest", guest) ∷ [] }

abbrev fresh : Projector
fresh = record { rate = 100; seen = []; stopped = false }

abbrev watching : Projector
watching = record { rate = 100; seen = ("guest", ("door", 3) ∷ []) ∷ []; stopped = false }

abbrev start : Round
start = record { projector = fresh; delivered = 0; objects = 0 }

abbrev clogged : ℕ → Session
clogged n = record guest { outbox = messages n }

tick-posted_example :
    (tick fixed_codec house lobby (new_recorder true 1) fresh).0.sessions
    ≡ map_values
        (λ s. posted fixed_codec (news s (seen_by s.id fresh) (list house none)) s)
        lobby.sessions
unfolding list passes_filter keep to_set add_tags
tick-posted_example =
    (tick-posted fixed_codec house lobby (new_recorder true 1) fresh (tt, tt) (tt, tt)).0

compute_diffs_due_example :
    (compute_diffs fresh guest (door ∷ [])).0 ≡ news guest (seen_by "guest" fresh) (door ∷ [])
unfolding str_eq
compute_diffs_due_example =
    (compute_diffs_due fresh guest (door ∷ []) "host" (tt, tt)
      (λ e. ground (arith, str_eq_iff "guest" "host"))).0

visit_full_example : (visit fixed_codec (door ∷ []) (clogged 512) start).0 ≡ clogged 512
visit_full_example =
    (visit_full fixed_codec (door ∷ []) (clogged 512) start []
      (omega (arith, length-messages 512))).0

recreated_unseen_example :
    Omits "door" (compute_diffs watching guest (record door { version = 1 } ∷ [])).0
unfolding last_seen seen_by lookup str_eq
recreated_unseen_example =
    (recreated_unseen house 0 9 (record opening { expected_version = 0 }) watching guest
      (record door { version = 1 } ∷ []) refl (omega arith) ((λ e. refl), tt)).1
