-- ===== src/World/Apply.antt =====
-- World.Apply: what each outcome means, and the optimistic lock of ExpectedVersion.
use dwcs.Base.{
  ℕ, ◌+◌, ◌%◌, ◌^◌, ◌<◌, String, false, none, some, List, ◌≡◌, ◌≢◌, ◌↔◌, refl, ◌⊎◌, inl, inr, arith,
  ok, err, Slice, Option-cases, str_eq, str_eq_iff, str_eq_of_ne, if◌then◌else◌,
}
use dwcs.GoMap.{lookup}
use dwcs.GoMap.Laws.{lookup-insert, lookup-delete, lookup-insert_self}
use dwcs.World.{
  World, WorldError, object_not_found, version_conflict, Object, UpdateRequest, merged, apply,
  delete_object, clone_object, or_existing, copy_slice,
}

pub clone_object_lem : (o : Object) → clone_object o ≡ o
unfolding clone_object
clone_object_lem o = ground arith

-- A nil field leaves what was there.
abbrev pub GivenOr : {A : Type 0} → Slice A → Slice A → Slice A → Type 0
GivenOr {A} given old new =
    ((given ≡ none) × (new ≡ old)) ⊎ ((xs : List A) × (given ≡ some xs) × (new ≡ some xs))

or_existing-GivenOr :
    {A : Type 0} (given old : Slice A) → GivenOr given old (or_existing given (some old))
unfolding or_existing copy_slice
or_existing-GivenOr none none = inl (refl, refl)
or_existing-GivenOr none (some xs) = inl (refl, refl)
or_existing-GivenOr (some xs) old = inr (xs, refl, refl)

or_existing_missing : {A : Type 0} (given : Slice A) → or_existing given none ≡ given
unfolding or_existing
or_existing_missing none = refl
or_existing_missing (some xs) = refl

module _ {S : Type 0} (w : World S) (s : S) (now : ℕ) (req : UpdateRequest) where
  -- A refused update changes nothing: neither the world nor what the callbacks act on. It had an
  -- expected version, and either the object is missing or its version is another one.
  pub apply_refused :
      (e : WorldError)
      → (apply w s now req).0 ≡ err e
      → ((apply w s now req).1 ≡ w)
        × ((apply w s now req).2 ≡ s)
        × (0 < req.expected_version)
        × (((lookup req.object_id w.objects ≡ none) × (e ≡ object_not_found))
            ⊎ ((o : Object) × (lookup req.object_id w.objects ≡ some o)
                × (o.version ≢ req.expected_version)
                × (e ≡ version_conflict)))
  unfolding apply
  apply_refused e h = elim (Option-cases (lookup req.object_id w.objects)) [
    | inl missing ↦ (ground arith, ground arith, ground arith, inl (missing, ground arith))
    | inr (o, found) ↦
        (ground arith, ground arith, ground arith, inr (o, found, ground arith, ground arith))
  ]

  -- An accepted update stores the merged object, and with an expected version the object was there at
  -- just that version.
  apply-merged :
      (o : Object)
      → (apply w s now req).0 ≡ ok o
      → (o ≡ merged (lookup req.object_id w.objects) req now)
        × (lookup req.object_id (apply w s now req).1.objects ≡ some o)
        × ((0 < req.expected_version)
            → (p : Object) × (lookup req.object_id w.objects ≡ some p)
              × (p.version ≡ req.expected_version))
  unfolding apply
  apply-merged o h = elim (Option-cases (lookup req.object_id w.objects)) [
    | inl missing ↦ (
      ground arith,
      ground (arith, lookup-insert_self req.object_id o w.objects),
      λ pos. absurd (ground arith),
    )
    | inr (p, found) ↦ (
      ground arith,
      ground (arith, lookup-insert_self req.object_id o w.objects),
      λ pos. (p, found, ground arith),
    )
  ]

  -- An accepted update stores the object that it returns, under the id of the request and with the time
  -- of the call. An object that was not there is stored as the request gives it, at version 1, and the
  -- request expected no version. An object that was there goes one version on, modulo 2^64, from
  -- the expected version if there was one; a field that the request leaves nil stays as it was, and
  -- another field is the request's.
  pub apply_accepted :
      (o : Object)
      → (apply w s now req).0 ≡ ok o
      → (lookup req.object_id (apply w s now req).1.objects ≡ some o)
        × (o.id ≡ req.object_id)
        × (o.updated_at ≡ now)
        × (((lookup req.object_id w.objects ≡ none)
              × (req.expected_version ≡ 0)
              × (o.version ≡ 1)
              × (o.payload ≡ req.payload)
              × (o.tags ≡ req.tags)
              × (o.meta ≡ req.meta))
            ⊎ ((p : Object) × (lookup req.object_id w.objects ≡ some p)
                × ((req.expected_version ≡ 0) ⊎ (p.version ≡ req.expected_version))
                × (o.version ≡ (p.version + 1) % 2 ^ 64)
                × GivenOr req.payload p.payload o.payload
                × GivenOr req.tags p.tags o.tags
                × GivenOr req.meta p.meta o.meta))
  unfolding apply merged
  apply_accepted o h =
      let facts = apply-merged o h in
      elim (Option-cases (lookup req.object_id w.objects)) [
        | inl missing ↦ (
          facts.1,
          ground (arith, facts.0),
          ground (arith, facts.0),
          inl (
            missing,
            ground arith,
            ground (arith, facts.0),
            rw (facts.0, missing) (or_existing_missing req.payload),
            rw (facts.0, missing) (or_existing_missing req.tags),
            rw (facts.0, missing) (or_existing_missing req.meta),
          ),
        )
        | inr (p, found) ↦ (
          facts.1,
          ground (arith, facts.0),
          ground (arith, facts.0),
          inr (
            p,
            found,
            ground arith,
            ground (arith, facts.0),
            rw (facts.0, found) (or_existing-GivenOr req.payload p.payload),
            rw (facts.0, found) (or_existing-GivenOr req.tags p.tags),
            rw (facts.0, found) (or_existing-GivenOr req.meta p.meta),
          ),
        )
      ]

  -- Whatever the outcome, no other object is touched.
  pub lookup-apply_ne :
      (j : String) → req.object_id ≢ j → lookup j (apply w s now req).1.objects ≡ lookup j w.objects
  unfolding apply
  lookup-apply_ne j h = ground (
    arith,
    lookup-insert req.object_id j (merged (lookup req.object_id w.objects) req now) w.objects,
    str_eq_of_ne req.object_id j,
  )

module _ {S : Type 0} (w : World S) (s : S) where
  -- Two updates that expect the same version: once the first is accepted, the second is refused with
  -- a version conflict and changes nothing.
  pub apply_lost_race :
      (now later : ℕ) (r q : UpdateRequest) (o : Object)
      → r.object_id ≡ q.object_id
      → r.expected_version ≡ q.expected_version
      → 0 < r.expected_version
      → (apply w s now r).0 ≡ ok o
      → let (_, w', s') = apply w s now r in apply w' s' later q ≡ (err version_conflict, w', s')
  unfolding apply
  apply_lost_race now later r q o same_id same_version pos accepted = ground (
    arith,
    lookup-insert_self r.object_id (merged (lookup r.object_id w.objects) r now) w.objects,
  )

  -- Delete says whether the object was there; afterwards it is gone, and the others are untouched.
  pub delete_object_lem :
      (id j : String)
      → let r = delete_object w s id in
        ((r.0 ≡ false) ↔ (lookup id w.objects ≡ none))
        × (lookup j r.1.objects ≡ (if str_eq id j then none else lookup j w.objects))
  unfolding delete_object
  delete_object_lem id j = elim (Option-cases (lookup id w.objects)) [
    | inl missing ↦ (ground arith, ground (arith, str_eq_iff id j))
    | inr (o, found) ↦ (ground arith, ground (arith, lookup-delete id j w.objects))
  ]
