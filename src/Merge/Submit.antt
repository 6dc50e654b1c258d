-- ===== src/Merge/Submit.antt =====
-- Coordinator.Submit as a history of the world.
use dwcs.Base.{
  ℕ, suc, String, true, false, Option, List, [], ◌∷◌, map, ◌≡◌, ◌≢◌, refl, arith, Result, ok, err,
  str_eq, str_eq_iff,
}
use dwcs.World.{World, WorldError, Object, UpdateRequest, apply}
use dwcs.World.Versions.{Call, applies, run, step}
use dwcs.Merge.{
  Submission, Decision, MergeFunc, merge_func, apply_all, submit, result_for, reason_of,
}

-- The updates as calls of Apply, the i-th at time `now i`.
abbrev pub as_calls : (ℕ → ℕ) → List UpdateRequest → List Call
as_calls now [] = []
as_calls now (req ∷ reqs) = applies (now 0) req ∷ as_calls (λ n. now (suc n)) reqs

abbrev pub ids : List UpdateRequest → List String
ids = map (λ req. req.object_id)

result_for-id :
    (req : UpdateRequest) (res : Result WorldError Object)
    → (result_for req res).object_id ≡ req.object_id
unfolding result_for
result_for-id req (ok o) = refl
result_for-id req (err e) = refl

reason_of-ne : (d : Decision) → reason_of d ≢ ""
unfolding reason_of
reason_of-ne d empty =
    let told : str_eq "rejected by merge function" "" ≡ false = unfold str_eq in refl in
    ground (arith, str_eq_iff d.reason "", str_eq_iff "rejected by merge function" "")

module _ {S : Type 0} where
  ids-apply_all :
      (w : World S) (s : S) (now : ℕ → ℕ) (reqs : List UpdateRequest)
      → map (λ p. p.object_id) (apply_all w s now reqs).0 ≡ ids reqs
  unfolding apply_all
  ids-apply_all w s now [] = refl
  ids-apply_all w s now (req ∷ reqs) =
      let (res, w', s') = apply w s (now 0) req in
      rw (result_for-id req res, ids-apply_all w' s' (λ n. now (suc n)) reqs)

  apply_all-eq-run :
      (w : World S) (s : S) (now : ℕ → ℕ) (reqs : List UpdateRequest)
      → ((apply_all w s now reqs).1 ≡ (run (w, s) (as_calls now reqs)).0)
        × ((apply_all w s now reqs).2 ≡ (run (w, s) (as_calls now reqs)).1)
  unfolding apply_all run step
  apply_all-eq-run w s now [] = (refl, refl)
  apply_all-eq-run w s now (req ∷ reqs) =
      let (res, w', s') = apply w s (now 0) req in apply_all-eq-run w' s' (λ n. now (suc n)) reqs

  -- An accepted submission applies every update in order, also after one that failed: there is one
  -- result for each, under its object's id, and the world goes through exactly these calls of Apply.
  pub submit_accepted :
      (fn : Option MergeFunc) (w : World S) (s : S) (now : ℕ → ℕ) (sub : Submission)
      → (merge_func fn sub).accept ≡ true
      → let (res, w', s') = submit fn w s now sub in
        let updates = (merge_func fn sub).updates in
        (res.accepted ≡ true)
        × (map (λ p. p.object_id) res.applied ≡ ids updates)
        × (w' ≡ (run (w, s) (as_calls now updates)).0)
        × (s' ≡ (run (w, s) (as_calls now updates)).1)
  unfolding submit
  submit_accepted fn w s now sub yes_it_is =
      let updates = (merge_func fn sub).updates in
      let moves = apply_all-eq-run w s now updates in
      (
        ground arith,
        ground (arith, ids-apply_all w s now updates),
        ground (arith, moves),
        ground (arith, moves),
      )

  -- A rejected submission changes nothing, and says why: its reason is never empty.
  pub submit_rejected :
      (fn : Option MergeFunc) (w : World S) (s : S) (now : ℕ → ℕ) (sub : Submission)
      → (merge_func fn sub).accept ≡ false
      → let (res, w', s') = submit fn w s now sub in
        (res.accepted ≡ false) × (res.reason ≢ "") × (res.applied ≡ []) × (w' ≡ w) × (s' ≡ s)
  unfolding submit
  submit_rejected fn w s now sub no_it_is_not =
      let d = merge_func fn sub in
      (
        ground arith,
        (λ empty. reason_of-ne d (ground arith)),
        ground arith,
        ground arith,
        ground arith,
      )
