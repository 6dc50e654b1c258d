-- ===== src/Projector/Worlds.antt =====
-- The list of World.List, as the projector gets it.
use dwcs.Base.{
  ℕ, String, true, none, List, [], ◌∷◌, ◌≡◌, ◌≢◌, refl, sym, ◌∙◌, subst, ◌⊎◌, inl, inr, arith,
  Handler, Option-cases, Bool-cases, str_eq, str_eq_iff, keep, All,
}
use dwcs.GoMap.{GoMap, lookup, insert, delete, values}
use dwcs.GoMap.Entries.{All-insert, All-delete}
use dwcs.World.{
  World, ChangeEvent, new, Object, UpdateRequest, merged, apply, delete_object, list,
  check_expected,
}
use dwcs.World.Listing.{list-eq-keep}
use dwcs.World.Versions.{Call, applies, deletes, step, run}
use dwcs.Projector.News.{Apart}

keep_all : (os : List Object) → keep (λ o. true) os ≡ os
unfolding keep
keep_all [] = refl
keep_all (o ∷ os) = rw (keep_all os)

-- Each object stands under its own id, and no id has two entries.
abbrev pub IsKeyed : GoMap Object → Type 0
IsKeyed [] = Unit {0}
IsKeyed ((k, o) ∷ m) = (o.id ≡ k) × All (λ e. e.0 ≢ k) m × IsKeyed m

insert-IsKeyed :
    (k : String) (o : Object) (m : GoMap Object) → o.id ≡ k → IsKeyed m → IsKeyed (insert k o m)
unfolding insert
insert-IsKeyed k o [] own h = (own, tt, tt)
insert-IsKeyed k o ((j, p) ∷ m) own h = elim (Bool-cases (str_eq j k)) [
  | inl e ↦ rw (e, insert) (own, subst (λ x. All (λ y. y.0 ≢ x) m) ((str_eq_iff j k).0 e) h.1, h.2)
  | inr e ↦
      rw (e, insert)
        (
          h.0,
          All-insert (λ x. x.0 ≢ j) k o m (λ q. ground (arith, str_eq_iff j k, q, e)) h.1,
          insert-IsKeyed k o m own h.2,
        )
]

delete-IsKeyed : (k : String) (m : GoMap Object) → IsKeyed m → IsKeyed (delete k m)
unfolding delete
delete-IsKeyed k [] h = tt
delete-IsKeyed k ((j, p) ∷ m) h = elim (Bool-cases (str_eq j k)) [
  | inl e ↦ rw (e, delete) (delete-IsKeyed k m h.2)
  | inr e ↦
      rw (e, delete)
        (h.0, weaker j (delete k m) (All-delete (λ x. x.0 ≢ j) k m h.1), delete-IsKeyed k m h.2)
]
  where
    weaker :
        (j : String) (m : GoMap Object) → All (λ x. (x.0 ≢ j) × (x.0 ≢ k)) m → All (λ x. x.0 ≢ j) m
    weaker j [] h = tt
    weaker j (x ∷ m) h = (h.0.0, weaker j m h.1)

values-Apart : (m : GoMap Object) → IsKeyed m → Apart (λ o. o.id) (values m)
values-Apart [] h = tt
values-Apart ((k, o) ∷ m) h = (others m h.1 h.2, values-Apart m h.2)
  where
    others :
        (n : GoMap Object) → All (λ e. e.0 ≢ k) n → IsKeyed n → All (λ y. y.id ≢ o.id) (values n)
    others [] a b = tt
    others ((j, p) ∷ n) a b = ((λ e. a.0 (sym b.0 ∙ e ∙ h.0)), others n a.1 b.2)

module _ {S : Type 0} where
  apply-objects :
      (w : World S) (s : S) (now : ℕ) (req : UpdateRequest)
      → ((apply w s now req).1.objects ≡ w.objects)
        ⊎ ((o : Object) × (o.id ≡ req.object_id)
            × ((apply w s now req).1.objects ≡ insert req.object_id o w.objects))
  unfolding apply
  apply-objects w s now req =
      let o = merged (lookup req.object_id w.objects) req now in
      elim (Option-cases (check_expected (lookup req.object_id w.objects) req.expected_version)) [
        | inl accepted ↦ inr (o, unfold merged in refl, rw (accepted, apply))
        | inr (e, refused) ↦ inl (rw (refused, apply))
      ]

  delete-objects :
      (w : World S) (s : S) (id : String)
      → ((delete_object w s id).1.objects ≡ w.objects)
        ⊎ ((delete_object w s id).1.objects ≡ delete id w.objects)
  unfolding delete_object
  delete-objects w s id = elim (Option-cases (lookup id w.objects)) [
    | inl missing ↦ inl (rw (missing, delete_object))
    | inr (o, found) ↦ inr (rw (found, delete_object))
  ]

  step-IsKeyed :
      (w : World S) (s : S) (c : Call) → IsKeyed w.objects → IsKeyed (step (w, s) c).0.objects
  unfolding step
  step-IsKeyed w s (applies now req) h = elim (apply-objects w s now req) [
    | inl same ↦ subst IsKeyed (sym same) h
    | inr (o, own, stored) ↦
        subst IsKeyed (sym stored) (insert-IsKeyed req.object_id o w.objects own h)
  ]
  step-IsKeyed w s (deletes id) h = elim (delete-objects w s id) [
    | inl same ↦ subst IsKeyed (sym same) h
    | inr gone ↦ subst IsKeyed (sym gone) (delete-IsKeyed id w.objects h)
  ]

  run-IsKeyed :
      (w : World S) (s : S) (cs : List Call) → IsKeyed w.objects → IsKeyed (run (w, s) cs).0.objects
  unfolding run
  run-IsKeyed w s [] h = h
  run-IsKeyed w s (c ∷ cs) h =
      let (w', s') = step (w, s) c in run-IsKeyed w' s' cs (step-IsKeyed w s c h)

  -- After any history of updates and deletions of an empty world, World.List gives objects with
  -- different ids.
  pub run-new-Apart :
      (hs : List (Handler ChangeEvent S)) (s : S) (cs : List Call)
      → Apart (λ o. o.id) (list (run (record new { handlers = hs }, s) cs).0 none)
  unfolding new
  run-new-Apart hs s cs =
      let w : World S = (run (record new { handlers = hs }, s) cs).0 in
      let all : list w none ≡ values w.objects =
        (list-eq-keep w none).0 ∙ keep_all (values w.objects) in
      subst (Apart (λ o. o.id)) (sym all)
        (values-Apart w.objects (run-IsKeyed (record new { handlers = hs }) s cs tt))
