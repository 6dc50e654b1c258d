-- ===== src/World/Versions.antt =====
-- Versions over any history of updates and deletions.
use dwcs.Base.{
  ℕ, zero, suc, ◌+◌, ◌-◌, ◌^◌, ◌≤◌, ◌<◌, String, Option, none, some, List, [], ◌∷◌, ◌≡◌, inl, inr,
  arith, Option-cases, str_eq_iff, length,
}
use dwcs.GoMap.{lookup}
use dwcs.GoMap.Laws.{lookup-insert, lookup-insert_self}
use dwcs.World.{World, new, Object, UpdateRequest, merged, apply, delete_object}
use dwcs.World.Apply.{delete_object_lem}

-- A call that changes the world, with the time that it reads.
pub data Call : Type 0 where
  applies : ℕ → UpdateRequest → Call
  deletes : String → Call

-- Unconditional updates of one object, with the times that they read.
abbrev pub update_all : String → List (ℕ × UpdateRequest) → List Call
update_all id [] = []
update_all id ((now, req) ∷ rs) =
    applies now (record req { object_id = id; expected_version = 0 }) ∷ update_all id rs

module _ {S : Type 0} where
  unfoldable pub step : World S × S → Call → World S × S
  step (w, s) (applies now req) = let (r, w', s') = apply w s now req in (w', s')
  step (w, s) (deletes id) = let (r, w', s') = delete_object w s id in (w', s')

  unfoldable pub run : World S × S → List Call → World S × S
  run ws [] = ws
  run ws (c ∷ cs) = run (step ws c) cs

  -- Each object stands under its own id, and its version lies from 1 to `n`.
  pub record IsVersioned (n : ℕ) (w : World S) : Type 0 where
    pub at_key :
        (k : String) (o : Object)
        → lookup k w.objects ≡ some o
        → (o.id ≡ k) × (1 ≤ o.version) × (o.version ≤ n)

  apply-IsVersioned :
      (n : ℕ) (w : World S) (s : S) (now : ℕ) (req : UpdateRequest)
      → n < 2 ^ 64 - 1
      → IsVersioned n w
      → IsVersioned (suc n) (apply w s now req).1
  unfolding apply merged
  apply-IsVersioned n w s now req small v = record {
    at_key = λ k o found. elim (Option-cases (lookup req.object_id w.objects)) [
      | inl missing ↦ ground (
        arith,
        lookup-insert req.object_id k (merged (lookup req.object_id w.objects) req now) w.objects,
        str_eq_iff req.object_id k,
        v.at_key k o,
      )
      | inr (p, old) ↦ ground (
        arith,
        lookup-insert req.object_id k (merged (lookup req.object_id w.objects) req now) w.objects,
        str_eq_iff req.object_id k,
        v.at_key k o,
        v.at_key req.object_id p old,
      )
    ];
  }

  delete-IsVersioned :
      (n : ℕ) (w : World S) (s : S) (id : String)
      → IsVersioned n w
      → IsVersioned (suc n) (delete_object w s id).1
  delete-IsVersioned n w s id v = record {
    at_key = λ k o found. ground (arith, (delete_object_lem w s id k).1, v.at_key k o);
  }

  run-IsVersioned_from :
      (n : ℕ) (cs : List Call) (w : World S) (s : S)
      → n + length cs < 2 ^ 64
      → IsVersioned n w
      → IsVersioned (n + length cs) (run (w, s) cs).0
  unfolding run step
  run-IsVersioned_from n [] w s small v = rw (let e : n + 0 ≡ n = omega arith in e) v
  run-IsVersioned_from n (applies now req ∷ cs) w s small v =
      let (r, w', s') = apply w s now req in
      let e : n + suc (length cs) ≡ suc n + length cs = omega arith in
      rw e (
        run-IsVersioned_from (suc n) cs w' s' (omega arith)
          (apply-IsVersioned n w s now req (omega arith) v))
  run-IsVersioned_from n (deletes id ∷ cs) w s small v =
      let (r, w', s') = delete_object w s id in
      let e : n + suc (length cs) ≡ suc n + length cs = omega arith in
      rw e (run-IsVersioned_from (suc n) cs w' s' (omega arith) (delete-IsVersioned n w s id v))

  -- From the empty world, after any history of fewer than 2^64 updates and deletions, accepted or
  -- refused, each object stands under its own id with a version from 1 to the number of calls.
  pub run-new-IsVersioned :
      (s : S) (cs : List Call) → length cs < 2 ^ 64 → IsVersioned (length cs) (run (new, s) cs).0
  unfolding new lookup
  run-new-IsVersioned s cs small =
      let e : zero + length cs ≡ length cs = omega arith in
      rw e at
        (run-IsVersioned_from zero cs new s (omega arith) (record { at_key = λ k o found. cc }))

  -- The version of an object that is there.
  abbrev pub version_at : String → World S → Option ℕ
  version_at id w = elim (lookup id w.objects) [ none ↦ none | some o ↦ some o.version ]

  version_at-apply :
      (id : String) (w : World S) (s : S) (now : ℕ) (req : UpdateRequest) (v : ℕ)
      → v < 2 ^ 64 - 1
      → version_at id w ≡ some v
      → version_at id (apply w s now (record req { object_id = id; expected_version = 0 })).1
        ≡ some (suc v)
  unfolding apply merged
  version_at-apply id w s now req v small at = ground (
    arith,
    lookup-insert_self id
        (merged (lookup id w.objects) (record req { object_id = id; expected_version = 0 }) now)
        w.objects,
  )

  version_at-run :
      (id : String) (rs : List (ℕ × UpdateRequest)) (w : World S) (s : S) (v : ℕ)
      → v + length rs < 2 ^ 64
      → version_at id w ≡ some v
      → version_at id (run (w, s) (update_all id rs)).0 ≡ some (v + length rs)
  unfolding run step
  version_at-run id [] w s v small at = rw (let e : v + 0 ≡ v = omega arith in e) at
  version_at-run id ((now, req) ∷ rs) w s v small at =
      let call = record req { object_id = id; expected_version = 0 } in
      let (r, w', s') = apply w s now call in
      let e : v + suc (length rs) ≡ suc v + length rs = omega arith in
      rw e (
        version_at-run id rs w' s' (suc v) (omega arith)
          (version_at-apply id w s now req v (omega arith) at))

  -- The first update creates the object at version 1, and each further one adds one: after a
  -- non-empty run of fewer than 2^64 unconditional updates the version is their number.
  pub version_at-update_all :
      (id : String) (w : World S) (s : S) (now : ℕ) (req : UpdateRequest)
      (rs : List (ℕ × UpdateRequest))
      → lookup id w.objects ≡ none
      → 1 + length rs < 2 ^ 64
      → version_at id (run (w, s) (update_all id ((now, req) ∷ rs))).0 ≡ some (1 + length rs)
  unfolding run step
  version_at-update_all id w s now req rs missing small =
      let call = record req { object_id = id; expected_version = 0 } in
      let (r, w', s') = apply w s now call in
      version_at-run id rs w' s' 1 small (
        unfold apply merged in
        ground (arith, lookup-insert_self id (merged (lookup id w.objects) call now) w.objects))
