-- ===== src/Merge.antt =====
-- internal/merge/merge.go: a submission is judged by a merge function, and its updates are applied
-- to the world one after the other.
pub mod Tests
pub mod Submit
pub mod Callbacks
use dwcs.Base.{
  ℕ, zero, suc, ◌+◌, ◌-◌, ◌*◌, ◌/◌, ◌%◌, ◌^◌, ◌≤◌, ◌<◌, String, Bool, true, false, not, ◌&&◌, ◌||◌,
  Option, none, some, List, [], ◌∷◌, ◌++◌, map, append_assoc, append-nil, map-append, ◌≡◌, ◌≢◌, ◌↔◌,
  refl, sym, ap, ◌∙◌, subst, fun_ext, ◌⊎◌, inl, inr, arith, Result, ok, err, Slice, elems, Bytes,
  append_copy, next_uint64, Outcome, returned, panicked, Handler, recovered, Duration, pos, negsuc,
  second, Option-cases, Bool-cases, str_eq, str_eq_iff, str_eq_refl, str_eq_of_ne, if◌then◌else◌,
  ltb, leb, ◌==◌, ltb→lt, lt→ltb, leb→le, ==_iff, length, length-append, length-map, length-keep-le,
  keep, any, all, All, All-keep,
}
use dwcs.World.{World, WorldError, Object, UpdateRequest, apply}

pub record Submission : Type 0 where
  pub task_id : String
  pub owner_id : String
  pub payload : Bytes
  pub meta : Bytes

pub record Decision : Type 0 where
  pub accept : Bool
  pub reason : String
  pub updates : List UpdateRequest

abbrev pub MergeFunc : Type 0
MergeFunc = Submission → Decision

-- fmt.Errorf("apply failed for %q: %w", req.ObjectID, err)
pub record ApplyFailed : Type 0 where
  pub object_id : String
  pub cause : WorldError

pub record PerUpdateResult : Type 0 where
  pub object_id : String
  pub outcome : Result ApplyFailed Object

pub record SubmitOutcome : Type 0 where
  pub accepted : Bool
  pub reason : String
  pub applied : List PerUpdateResult

unfoldable pub default_pass_through : MergeFunc
default_pass_through sub = record { accept = true; reason = ""; updates = [] }

-- New: a nil merge function becomes the default.
unfoldable pub merge_func : Option MergeFunc → MergeFunc
unfolding default_pass_through
merge_func none = default_pass_through
merge_func (some f) = f

unfoldable pub reason_of : Decision → String
reason_of d = if str_eq d.reason "" then "rejected by merge function" else d.reason

-- The world's error wrapped with the id of the object.
unfoldable pub result_for : UpdateRequest → Result WorldError Object → PerUpdateResult
result_for req (ok o) = record { object_id = req.object_id; outcome = ok o }
result_for req (err e) = record {
  object_id = req.object_id;
  outcome = err (record { object_id = req.object_id; cause = e });
}

module _ {S : Type 0} where
  -- The loop over the updates, `now i` being the time that the i-th Apply reads. An update that fails is
  -- recorded, and the loop goes on.
  unfoldable pub apply_all :
      World S → S → (ℕ → ℕ) → List UpdateRequest → List PerUpdateResult × World S × S
  unfolding result_for
  apply_all w s now [] = ([], w, s)
  apply_all w s now (req ∷ reqs) =
      let (res, w', s') = apply w s (now 0) req in
      let (rest, w'', s'') = apply_all w' s' (λ n. now (suc n)) reqs in
      (result_for req res ∷ rest, w'', s'')

  unfoldable pub submit :
      Option MergeFunc → World S → S → (ℕ → ℕ) → Submission → SubmitOutcome × World S × S
  unfolding merge_func reason_of apply_all
  submit fn w s now sub =
      let d = merge_func fn sub in
      let (applied, w', s') = apply_all w s now d.updates in
      if d.accept
      then (record { accepted = true; reason = ""; applied = applied }, w', s')
      else (record { accepted = false; reason = reason_of d; applied = [] }, w, s)
