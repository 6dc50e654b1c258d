-- ===== src/Projector/Delivery.antt =====
-- What a tick puts into the outboxes.
use dwcs.Base.{
  String, ◌||◌, none, some, List, [], ◌∷◌, ◌++◌, ◌≡◌, ◌≢◌, refl, sym, ap, ◌∙◌, arith, ok, err,
  if◌then◌else◌, leb, length, All,
}
use dwcs.GoMap.{GoMap, map_values, values}
use dwcs.World.{World, Object, list}
use dwcs.Session.{Session, Manager, each, each_entry, send}
use dwcs.Protocol.{Codec, ObjectDiff, world_update, msg_world_update, encode}
use dwcs.Metrics.{Recorder}
use dwcs.Projector.{Projector, Round, seen_by, compute_diffs, send_diffs, visit, tick}
use dwcs.Projector.Diffs.{compute_diffs_lem}
use dwcs.Projector.News.{Apart, news, compute_diffs-news}
use dwcs.Projector.Ticks.{CaughtUp, send_diffs-fixed, tick-CaughtUp}

module _ (c : Codec) where
  -- The session with one more message in its outbox: an update with the diffs, if there are any, if they
  -- can be encoded, and if the session is open and has fewer than 512 messages.
  abbrev pub posted : List ObjectDiff → Session → Session
  posted [] s = s
  posted (d ∷ ds) s =
      elim (encode c msg_world_update "" (some (world_update (record { objects = d ∷ ds })))) [
        | err e ↦ s
        | ok msg ↦
            if s.closed || leb 512 (length s.outbox)
            then s
            else record s { outbox = s.outbox ++ msg ∷ [] }
      ]

  send_diffs-posted :
      (ds : List ObjectDiff) (s : Session) (x : Round) → (send_diffs c ds s x).0 ≡ posted ds s
  unfolding send_diffs send
  send_diffs-posted [] s x = refl
  send_diffs-posted (d ∷ ds) s x = ground arith

  visit-posted :
      (objects : List Object) (s : Session) (x : Round)
      → Apart (λ o. o.id) objects
      → (visit c objects s x).0 ≡ posted (news s (seen_by s.id x.projector) objects) s
  visit-posted objects s x apart =
      let sent = compute_diffs-news x.projector s objects apart in
      unfold visit in rw sent (send_diffs-posted (news s (seen_by s.id x.projector) objects) s _)

  visit-others :
      (objects : List Object) (s : Session) (x : Round) (j : String)
      → s.id ≢ j
      → seen_by j (visit c objects s x).1.projector ≡ seen_by j x.projector
  visit-others objects s x j other =
      let (ds, p') = compute_diffs x.projector s objects in
      let kept = (send_diffs-fixed c ds s (record x { projector = p' })).1 in
      unfold visit in ap (seen_by j) kept ∙ (compute_diffs_lem x.projector s objects).3 j other

  -- Sessions with other ids have seen what they had.
  visit_keeps :
      (objects : List Object) (p : Projector) (s : Session) (x : Round) (ss : List Session)
      → All (λ t. t.id ≢ s.id) ss
      → All (λ t. seen_by t.id x.projector ≡ seen_by t.id p) ss
      → All (λ t. seen_by t.id (visit c objects s x).1.projector ≡ seen_by t.id p) ss
  visit_keeps objects p s x [] h k = tt
  visit_keeps objects p s x (t ∷ ss) h k =
      (visit-others objects s x t.id (λ e. h.0 (sym e)) ∙ k.0, visit_keeps objects p s x ss h.1 k.1)

  each_entry-posted :
      (objects : List Object) (p : Projector) (m : GoMap Session) (x : Round)
      → Apart (λ o. o.id) objects
      → Apart (λ s. s.id) (values m)
      → All (λ s. seen_by s.id x.projector ≡ seen_by s.id p) (values m)
      → (each_entry (visit c objects) m x).0
        ≡ map_values (λ s. posted (news s (seen_by s.id p) objects) s) m
  unfolding each_entry map_values
  each_entry-posted objects p [] x apart differ k = refl
  each_entry-posted objects p ((key, s) ∷ m) x apart differ k =
      let (s', x') = visit c objects s x in
      let here : s' ≡ posted (news s (seen_by s.id p) objects) s =
        visit-posted objects s x apart ∙ ap (λ seen. posted (news s seen objects) s) k.0 in
      let rest =
        each_entry-posted objects p m x' apart differ.1
          (visit_keeps objects p s x (values m) differ.0 k.1) in
      rw (here, rest)

  module _ {S : Type 0} (w : World S) where
    same_seen : (p : Projector) (ss : List Session) → All (λ s. seen_by s.id p ≡ seen_by s.id p) ss
    same_seen p [] = tt
    same_seen p (s ∷ ss) = (refl, same_seen p ss)

    -- In a world whose objects have different ids, for sessions with different ids, a tick puts into the
    -- outbox of each session one message more, an update with an entry for each object of the world that
    -- the session may see by its tags, or by `*`, in a version beyond the one that it has seen. A
    -- session stays as it is if there is no such object, the update cannot be encoded, the session
    -- is closed, or 512 messages are in its outbox. Afterwards the projector has noted, for every session
    -- and every object that it may see, the version of the object or a later one as seen.
    pub tick-posted :
        (m : Manager) (mr : Recorder) (p : Projector)
        → Apart (λ o. o.id) (list w none)
        → Apart (λ s. s.id) (values m.sessions)
        → let (m', mr', p') = tick c w m mr p in
          (m'.sessions
            ≡ map_values (λ s. posted (news s (seen_by s.id p) (list w none)) s) m.sessions)
          × All (CaughtUp p' (list w none)) (values m'.sessions)
    tick-posted m mr p apart differ = (
      unfold tick each in
          each_entry-posted (list w none) p m.sessions
            (record { projector = p; delivered = 0; objects = 0 }) apart differ
            (same_seen p (values m.sessions)),
      tick-CaughtUp c w m mr p,
    )
