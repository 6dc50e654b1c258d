-- ===== src/Projector/Recreated.antt =====
-- An object that is deleted and created anew, as the projector sees it.
use dwcs.Base.{
  All-map, ℕ, ◌≤◌, String, none, some, List, [], ◌∷◌, ◌≡◌, ◌≢◌, refl, ap, inl, inr, arith,
  str_eq_refl, All,
}
use dwcs.GoMap.{GoMap, lookup}
use dwcs.GoMap.Laws.{lookup-insert}
use dwcs.World.{World, Object, UpdateRequest, apply, delete_object, merged}
use dwcs.World.Apply.{delete_object_lem}
use dwcs.Session.{Session}
use dwcs.Protocol.{ObjectDiff}
use dwcs.Projector.{diff_of, Projector, last_seen, seen_by, compute_diffs}
use dwcs.Projector.Diffs.{IsNews, compute_diffs_lem}

-- No diff is of this object.
abbrev pub Omits : String → List ObjectDiff → Type 0
Omits id = All (λ d. d.object_id ≢ id)

not_news :
    (id : String) (s : Session) (seen : GoMap ℕ) (os : List Object) (d : ObjectDiff)
    → All (λ o. o.id ≡ id → o.version ≤ last_seen id seen) os
    → IsNews s seen os d
    → d.object_id ≢ id
unfolding diff_of
not_news id s seen [] d h n e = n
not_news id s seen (o ∷ os) d h (inl (same, m, new)) e =
    let here : o.id ≡ id = ground (arith, same, e) in
    omega (arith, h.0 here, new, ap (λ k. last_seen k seen) here)
not_news id s seen (o ∷ os) d h (inr n) e = not_news id s seen os d h.1 n e

created_at_one :
    {S : Type 0} (w : World S) (st : S) (now : ℕ) (req : UpdateRequest)
    → req.expected_version ≡ 0
    → lookup req.object_id w.objects ≡ none
    → (o : Object) × (lookup req.object_id (apply w st now req).1.objects ≡ some o)
      × (o.version ≡ 1)
unfolding apply merged
created_at_one w st now req free gone = (
  merged none req now,
  ground (
    arith,
    lookup-insert req.object_id req.object_id (merged none req now) w.objects,
    str_eq_refl req.object_id,
  ),
  refl,
)

-- An object that is deleted and then created anew starts at version 1 again. A session that had
-- seen the old object in any version is not sent the new one while it stays at that version.
pub recreated_unseen :
    {S : Type 0} (w : World S) (st : S) (now : ℕ) (req : UpdateRequest) (p : Projector)
    (s : Session) (objects : List Object)
    → req.expected_version ≡ 0
    → 1 ≤ last_seen req.object_id (seen_by s.id p)
    → All (λ o. o.id ≡ req.object_id → o.version ≡ 1) objects
    → let (_, w₁, s₁) = delete_object w st req.object_id in
      let (_, w₂, _) = apply w₁ s₁ now req in
      ((o : Object) × (lookup req.object_id w₂.objects ≡ some o) × (o.version ≡ 1))
      × Omits req.object_id (compute_diffs p s objects).0
recreated_unseen w st now req p s objects free before young =
    let (_, w₁, s₁) = delete_object w st req.object_id in
    let gone : lookup req.object_id w₁.objects ≡ none =
      ground (
        arith,
        (delete_object_lem w st req.object_id req.object_id).1,
        str_eq_refl req.object_id,
      ) in
    (
      created_at_one w₁ s₁ now req free gone,
      All-map _ _ _
          (λ d n.
            not_news req.object_id s (seen_by s.id p) objects d
              (All-map _ _ objects (λ o one e. omega (arith, one e, before)) young) n)
          (compute_diffs_lem p s objects).0,
    )
