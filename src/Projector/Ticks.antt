-- ===== src/Projector/Ticks.antt =====
-- tick over all sessions, and what a full outbox loses.
use dwcs.Base.{
  ◌≤◌, String, none, List, [], ◌∷◌, ◌≡◌, refl, sym, ap, ◌∙◌, subst, inl, inr, arith, Bytes,
  Bool-cases, str_eq, str_eq_iff, length, All,
}
use dwcs.GoMap.{GoMap, values}
use dwcs.World.{World, Object, list}
use dwcs.Session.{Session, Manager, each, each_entry, send}
use dwcs.Protocol.{Codec, ObjectDiff}
use dwcs.Metrics.{Recorder}
use dwcs.Projector.{Projector, Round, last_seen, seen_by, compute_diffs, send_diffs, visit, tick}
use dwcs.Projector.Diffs.{UpToDate, compute_diffs_lem, compute_diffs_quiet}

-- What the projector has noted for the session covers every object that it may see.
abbrev pub CaughtUp : Projector → List Object → Session → Type 0
CaughtUp p objects s = All (UpToDate s (seen_by s.id p)) objects

-- No version seen by any session falls.
abbrev pub Grows : Projector → Projector → Type 0
Grows p q =
    (session id : String) → last_seen id (seen_by session p) ≤ last_seen id (seen_by session q)

CaughtUp-mono :
    (p q : Projector) (objects : List Object) (s : Session) (ms : List Bytes)
    → Grows p q
    → CaughtUp p objects s
    → CaughtUp q objects (record s { outbox = ms })
CaughtUp-mono p q [] s ms g h = tt
CaughtUp-mono p q (o ∷ os) s ms g h =
    ((λ m. omega (arith, h.0 m, g s.id o.id)), CaughtUp-mono p q os s ms g h.1)

CaughtUp-All_mono :
    (p q : Projector) (objects : List Object) (ss : List Session)
    → Grows p q
    → All (CaughtUp p objects) ss
    → All (CaughtUp q objects) ss
CaughtUp-All_mono p q objects [] g h = tt
CaughtUp-All_mono p q objects (s ∷ ss) g h =
    (CaughtUp-mono p q objects s s.outbox g h.0, CaughtUp-All_mono p q objects ss g h.1)

compute_diffs-Grows :
    (p : Projector) (s : Session) (objects : List Object) → Grows p (compute_diffs p s objects).1
compute_diffs-Grows p s objects session id =
    let facts = compute_diffs_lem p s objects in
    elim (Bool-cases (str_eq s.id session)) [
      | inl same ↦
          subst
            (λ k.
              last_seen id (seen_by k p) ≤ last_seen id (seen_by k (compute_diffs p s objects).1))
            ((str_eq_iff s.id session).0 same) (facts.2 id)
      | inr other ↦ omega (
        arith,
        ap (last_seen id) (facts.3 session (λ e. ground (arith, str_eq_iff s.id session))),
      )
    ]

module _ (c : Codec) where
  -- Visiting a session changes its outbox and nothing else of it.
  pub send_diffs-fixed :
      (ds : List ObjectDiff) (s : Session) (x : Round)
      → let (s', x') = send_diffs c ds s x in
        (s' ≡ record s { outbox = s'.outbox }) × (x'.projector ≡ x.projector)
  unfolding send_diffs send
  send_diffs-fixed [] s x = (refl, refl)
  send_diffs-fixed (d ∷ ds) s x = (ground arith, ground arith)

  visit_lem :
      (objects : List Object) (s : Session) (x : Round)
      → let (s', x') = visit c objects s x in
        Grows x.projector x'.projector × CaughtUp x'.projector objects s'
  unfolding visit
  visit_lem objects s x =
      let (ds, p') = compute_diffs x.projector s objects in
      let x₁ = record x { projector = p' } in
      let (same, kept) = send_diffs-fixed ds s x₁ in
      let s' = (send_diffs c ds s x₁).0 in
      let q = (send_diffs c ds s x₁).1.projector in
      let grows : Grows p' q =
        λ session id. omega (arith, ap (λ k. last_seen id (seen_by session k)) kept) in
      (
        (λ session id.
            omega (arith, compute_diffs-Grows x.projector s objects session id, grows session id)),
        subst (CaughtUp q objects) (sym same) (
            CaughtUp-mono p' q objects s s'.outbox grows
              (compute_diffs_lem x.projector s objects).1),
      )

  each_lem :
      (objects : List Object) (m : GoMap Session) (x : Round)
      → let (m', x') = each_entry (visit c objects) m x in
        Grows x.projector x'.projector × All (CaughtUp x'.projector objects) (values m')
  unfolding each_entry
  each_lem objects [] x = ((λ session id. omega arith), tt)
  each_lem objects ((k, s) ∷ m) x =
      let (s', x₁) = visit c objects s x in
      let here = visit_lem objects s x in
      let there = each_lem objects m x₁ in
      let q = (each_entry (visit c objects) m x₁).1.projector in
      (
        (λ session id. omega (arith, here.0 session id, there.0 session id)),
        (CaughtUp-mono x₁.projector q objects s' s'.outbox there.0 here.1, there.1),
      )

  -- A session that is caught up is left as it is.
  visit_quiet :
      (objects : List Object) (s : Session) (x : Round)
      → CaughtUp x.projector objects s
      → ((visit c objects s x).0 ≡ s)
        × ((visit c objects s x).1.delivered ≡ x.delivered)
        × Grows x.projector (visit c objects s x).1.projector
  visit_quiet objects s x h =
      let quiet = (compute_diffs_quiet x.projector s objects h).0 in
      (
        unfold visit in rw (quiet, visit),
        unfold visit in rw (quiet, visit),
        (visit_lem objects s x).0,
      )

  each_quiet :
      (objects : List Object) (m : GoMap Session) (x : Round)
      → All (CaughtUp x.projector objects) (values m)
      → ((each_entry (visit c objects) m x).0 ≡ m)
        × ((each_entry (visit c objects) m x).1.delivered ≡ x.delivered)
  unfolding each_entry
  each_quiet objects [] x h = (refl, refl)
  each_quiet objects ((k, s) ∷ m) x h =
      let x₁ = (visit c objects s x).1 in
      let (same, count, grows) = visit_quiet objects s x h.0 in
      let rest =
        each_quiet objects m x₁
          (CaughtUp-All_mono x.projector x₁.projector objects (values m) grows h.1) in
      (rw (same, rest.0), rest.1 ∙ count)

  module _ {S : Type 0} (w : World S) where
    -- What the projector has noted after a tick covers every session and every object of the world.
    pub tick-CaughtUp :
        (m : Manager) (mr : Recorder) (p : Projector)
        → let (m', mr', p') = tick c w m mr p in
          All (CaughtUp p' (list w none)) (values m'.sessions)
    unfolding tick each
    tick-CaughtUp m mr p =
        (each_lem (list w none) m.sessions (record { projector = p; delivered = 0; objects = 0 })).1

    tick_quiet :
        (m : Manager) (mr : Recorder) (p : Projector)
        → All (CaughtUp p (list w none)) (values m.sessions)
        → ((tick c w m mr p).0 ≡ m) × ((tick c w m mr p).1 ≡ mr)
    unfolding tick each
    tick_quiet m mr p h =
        let (same, none_sent) =
          each_quiet (list w none) m.sessions (record { projector = p; delivered = 0; objects = 0 })
            h in
        (
          ap (λ (ss : GoMap Session). let n : Manager = record { sessions = ss } in n) same,
          rw none_sent,
        )

    -- A tick right after another, with no change in between, sends nothing to anybody and records no
    -- broadcast.
    pub tick_twice :
        (m : Manager) (mr : Recorder) (p : Projector)
        → let (m', mr', p') = tick c w m mr p in
          ((tick c w m' mr' p').0 ≡ m') × ((tick c w m' mr' p').1 ≡ mr')
    tick_twice m mr p =
        let (m', mr', p') = tick c w m mr p in tick_quiet m' mr' p' (tick-CaughtUp m mr p)

  -- A session whose outbox is full gets nothing, and yet what it was to get counts as seen: whatever
  -- its outbox holds later, the same objects make no updates for it.
  pub visit_full :
      (objects : List Object) (s : Session) (x : Round) (ms : List Bytes)
      → 512 ≤ length s.outbox
      → let (s', x') = visit c objects s x in
        (s' ≡ s) × ((compute_diffs x'.projector (record s { outbox = ms }) objects).0 ≡ [])
  visit_full objects s x ms full =
      let (s', x') = visit c objects s x in
      let kept : s' ≡ s =
        unfold visit in send_diffs_full (compute_diffs x.projector s objects).0 _ in
      let seen : CaughtUp x'.projector objects s =
        subst (CaughtUp x'.projector objects) kept (visit_lem objects s x).1 in
      (
        kept,
        (compute_diffs_quiet x'.projector (record s { outbox = ms }) objects
            (CaughtUp-mono x'.projector x'.projector objects s ms (λ session id. omega arith)
              seen)).0,
      )
    where
      send_diffs_full : (ds : List ObjectDiff) (y : Round) → (send_diffs c ds s y).0 ≡ s
      send_diffs_full [] y = unfold send_diffs in refl
      send_diffs_full (d ∷ ds) y = unfold send_diffs send in ground arith
