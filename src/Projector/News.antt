-- ===== src/Projector/News.antt =====
-- What computeDiffs makes for a session, as a filter on the list of objects.
use dwcs.Base.{
  ℕ, ◌<◌, String, Bool, true, false, ◌&&◌, List, [], ◌∷◌, map, ◌≡◌, ◌≢◌, refl, ap, ◌∙◌, inl, inr,
  arith, Bool-cases, str_eq_iff, ltb, keep, all, All,
}
use dwcs.GoMap.{GoMap, insert}
use dwcs.World.{Object}
use dwcs.Session.{Session}
use dwcs.Protocol.{ObjectDiff}
use dwcs.Projector.{diff_of, Projector, last_seen, seen_by, diffs_loop, compute_diffs}
use dwcs.Projector.Diffs.{is_shown, UpToDate, last_seen-insert, diffs_loop-cases, compute_diffs_lem}

-- No two elements have the same id.
abbrev pub Apart : {A : Type 0} → (A → String) → List A → Type 0
Apart id [] = Unit {0}
Apart id (x ∷ xs) = All (λ y. id y ≢ id x) xs × Apart id xs

-- The session may see the object, and the object has a version beyond the one seen.
abbrev pub is_due : Session → GoMap ℕ → Object → Bool
is_due s seen o = is_shown s o && ltb (last_seen o.id seen) o.version

abbrev pub update_of : Object → ObjectDiff
update_of o = record { object_id = o.id; payload = o.payload; version = o.version; meta = o.meta }

-- An update for each object that is due, in the order of the list.
abbrev pub news : Session → GoMap ℕ → List Object → List ObjectDiff
news s seen os =
    map (λ o. record { object_id = o.id; payload = o.payload; version = o.version; meta = o.meta })
      (keep (is_due s seen) os)

keep-insert :
    (s : Session) (seen : GoMap ℕ) (o : Object) (os : List Object)
    → All (λ x. x.id ≢ o.id) os
    → keep (is_due s (insert o.id o.version seen)) os ≡ keep (is_due s seen) os
unfolding keep
keep-insert s seen o [] h = refl
keep-insert s seen o (x ∷ os) h =
    let same : last_seen x.id (insert o.id o.version seen) ≡ last_seen x.id seen =
      ground (arith, h.0, last_seen-insert x.id o.id o.version seen, str_eq_iff o.id x.id) in
    rw (same, keep-insert s seen o os h.1)

is_due-cases :
    (s : Session) (seen : GoMap ℕ) (o : Object)
    → ((is_shown s o ≡ true) × (last_seen o.id seen < o.version) → is_due s seen o ≡ true)
      × (UpToDate s seen o → is_due s seen o ≡ false)
is_due-cases s seen o = (
  (λ h. ground arith),
  λ h. elim (Bool-cases (is_shown s o)) [
    | inl may ↦ ground (arith, h may)
    | inr hidden ↦ ground arith
  ],
)

diffs_loop-news :
    (s : Session) (seen : GoMap ℕ) (os : List Object)
    → Apart (λ o. o.id) os
    → (diffs_loop s seen os).0 ≡ news s seen os
unfolding keep
diffs_loop-news s seen [] h = unfold diffs_loop in refl
diffs_loop-news s seen (o ∷ os) h = elim (diffs_loop-cases s seen o os) [
  | inl (m, new, e) ↦
      let rest : (diffs_loop s (insert o.id o.version seen) os).0 ≡ news s seen os =
        diffs_loop-news s (insert o.id o.version seen) os h.1
        ∙ ap (map update_of) (keep-insert s seen o os h.0) in
      let due = (is_due-cases s seen o).0 (m, new) in rw (e, due, rest) (unfold diff_of in refl)
  | inr (old, e) ↦
      let passed = (is_due-cases s seen o).1 old in rw (e, passed) (diffs_loop-news s seen os h.1)
]

pub compute_diffs-news :
    (p : Projector) (s : Session) (all : List Object)
    → Apart (λ o. o.id) all
    → (compute_diffs p s all).0 ≡ news s (seen_by s.id p) all
unfolding compute_diffs
compute_diffs-news p s all apart = diffs_loop-news s (seen_by s.id p) all apart

-- For a list of objects with different ids, computeDiffs makes an update for each object that the
-- session may see, by `*` or by a tag that it subscribes to, in a version beyond the one that the
-- session has seen, and no other update, in the order of the list; each update has the id, payload,
-- version and meta of its object. Afterwards each object that the session may see is noted as seen in its
-- version or a later one, and what any other session has seen is untouched.
pub compute_diffs_due :
    (p : Projector) (s : Session) (all : List Object) (j : String)
    → Apart (λ o. o.id) all
    → s.id ≢ j
    → let (diffs, p') = compute_diffs p s all in
      (diffs ≡ news s (seen_by s.id p) all)
      × All (UpToDate s (seen_by s.id p')) all
      × (seen_by j p' ≡ seen_by j p)
compute_diffs_due p s all j apart other =
    let (only, shown, grows, others) = compute_diffs_lem p s all in
    (compute_diffs-news p s all apart, shown, others j other)
