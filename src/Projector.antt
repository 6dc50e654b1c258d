-- ===== src/Projector.antt =====
-- internal/projector/projector.go: the projection of the world to the sessions. For each session the
-- projector keeps the version of each object that it last put into an update.
pub mod Tests
pub mod Diffs
pub mod News
pub mod Ticks
pub mod Worlds
pub mod Delivery
pub mod Recreated
use dwcs.Base.{
  ℕ, zero, suc, ◌+◌, ◌-◌, ◌*◌, ◌/◌, ◌%◌, ◌^◌, ◌≤◌, ◌<◌, String, Bool, true, false, not, ◌&&◌, ◌||◌,
  Option, none, some, List, [], ◌∷◌, ◌++◌, map, append_assoc, append-nil, map-append, ◌≡◌, ◌≢◌, ◌↔◌,
  refl, sym, ap, ◌∙◌, subst, fun_ext, ◌⊎◌, inl, inr, arith, Result, ok, err, Slice, elems, Bytes,
  append_copy, next_uint64, Outcome, returned, panicked, Handler, recovered, Duration, pos, negsuc,
  second, Option-cases, Bool-cases, str_eq, str_eq_iff, str_eq_refl, str_eq_of_ne, if◌then◌else◌,
  ltb, leb, ◌==◌, ltb→lt, lt→ltb, leb→le, ==_iff, length, length-append, length-map, length-keep-le,
  keep, any, all, All, All-keep,
}
use dwcs.GoMap.{GoMap, lookup, insert, delete}
use dwcs.World.{World, Object, list}
use dwcs.Session.{Session, SessionError, Manager, has_tag, send, each}
use dwcs.Protocol.{Codec, ObjectDiff, WorldUpdatePayload, world_update, msg_world_update, encode}
use dwcs.Metrics.{Recorder, broadcast_done}

pub record Projector : Type 0 where
  pub rate : ℕ
  pub seen : GoMap (GoMap ℕ)
  pub stopped : Bool

-- A rate that is not positive becomes 100 ms.
unfoldable pub rate_for : Duration → ℕ
rate_for (pos zero) = 100 * 1000000
rate_for (pos (suc n)) = suc n
rate_for (negsuc n) = 100 * 1000000

unfoldable pub new_projector : Duration → Projector
unfolding rate_for
new_projector rate = record { rate = rate_for rate; seen = []; stopped = false }

unfoldable pub stop : Projector → Projector
stop p = if p.stopped then p else record p { stopped = true }

unfoldable pub forget_session : String → Projector → Projector
forget_session id p = record p { seen = delete id p.seen }

-- seen[id], which is 0 for a key that is missing.
unfoldable pub last_seen : String → GoMap ℕ → ℕ
last_seen id seen = elim (lookup id seen) [ none ↦ 0 | some v ↦ v ]

-- p.seen[s.ID], or a new map.
unfoldable pub seen_by : String → Projector → GoMap ℕ
seen_by session p = elim (lookup session p.seen) [ none ↦ [] | some seen ↦ seen ]

matches_any : Session → List String → Bool
matches_any s [] = false
matches_any s (t ∷ ts) = let rest = matches_any s ts in if has_tag s t then true else rest

unfoldable pub session_matches_any_tag : Session → Slice String → Bool
unfolding matches_any
session_matches_any_tag s tags = if has_tag s "*" then true else matches_any s (elems tags)

unfoldable pub diff_of : Object → ObjectDiff
diff_of o = record { object_id = o.id; payload = o.payload; version = o.version; meta = o.meta }

-- The loop of computeDiffs: the updates, and the versions seen afterwards.
unfoldable pub diffs_loop : Session → GoMap ℕ → List Object → List ObjectDiff × GoMap ℕ
unfolding diff_of last_seen
diffs_loop s seen [] = ([], seen)
diffs_loop s seen (o ∷ os) =
    elim (session_matches_any_tag s o.tags && ltb (last_seen o.id seen) o.version) [
      | true ↦
          let (rest, seen') = diffs_loop s (insert o.id o.version seen) os in
          (diff_of o ∷ rest, seen')
      | false ↦ diffs_loop s seen os
    ]

unfoldable pub compute_diffs : Projector → Session → List Object → List ObjectDiff × Projector
unfolding diffs_loop seen_by
compute_diffs p s all =
    let (diffs, seen') = diffs_loop s (seen_by s.id p) all in
    (diffs, record p { seen = insert s.id seen' p.seen })

-- What tick counts while it goes over the sessions.
pub record Round : Type 0 where
  pub projector : Projector
  pub delivered : ℕ
  pub objects : ℕ

unfoldable pub delivery : Result SessionError (Unit {0}) → List ObjectDiff → Round → Round
delivery (err e) diffs x = x
delivery (ok u) diffs x = record x {
  delivered = x.delivered + 1;
  objects = if x.objects == 0 then length diffs else x.objects;
}

module _ (c : Codec) where
  unfoldable pub send_diffs : List ObjectDiff → Session → Round → Session × Round
  unfolding delivery
  send_diffs [] s x = (s, x)
  send_diffs (d ∷ ds) s x =
      elim (encode c msg_world_update "" (some (world_update (record { objects = d ∷ ds })))) [
        | err e ↦ (s, x)
        | ok msg ↦ let (res, s') = send msg s in (s', delivery res (d ∷ ds) x)
      ]

  -- The function that tick hands to Each.
  unfoldable pub visit : List Object → Session → Round → Session × Round
  unfolding compute_diffs send_diffs
  visit all s x =
      let (diffs, p') = compute_diffs x.projector s all in
      send_diffs diffs s (record x { projector = p' })

  unfoldable pub tick :
      {S : Type 0} → World S → Manager → Recorder → Projector → Manager × Recorder × Projector
  unfolding visit
  tick w m mr p =
      let (m', x) =
        each (visit (list w none)) m (record { projector = p; delivered = 0; objects = 0 }) in
      (
        m',
        if ltb 0 x.delivered && mr.enabled then broadcast_done x.delivered x.objects mr else mr,
        x.projector,
      )
