-- ===== src/Merge/Tests.antt =====
-- The theorems on submissions at concrete inputs.
use dwcs.Base.{ℕ, true, false, none, some, List, [], ◌∷◌, ◌≡◌, refl}
use dwcs.World.{World, UpdateRequest}
use dwcs.World.Versions.{run}
use dwcs.Merge.{Submission, MergeFunc, submit, merge_func}
use dwcs.Merge.Submit.{as_calls, submit_accepted}

-- Two updates of the task's object, of which the second expects a version that is not there.
abbrev pub updates : List UpdateRequest
updates =
    record {
      object_id = "a";
      payload = some (1 ∷ []);
      expected_version = 0;
      tags = none;
      meta = none;
    }
    ∷ record { object_id = "b"; payload = none; expected_version = 7; tags = none; meta = none }
    ∷ []

abbrev pub take_all : MergeFunc
take_all sub = record { accept = true; reason = ""; updates = updates }

abbrev refuse : MergeFunc
refuse sub = record { accept = false; reason = ""; updates = updates }

abbrev work : Submission
work = record { task_id = "a"; owner_id = "ann"; payload = some (1 ∷ []); meta = none }

abbrev empty_world : World ℕ
empty_world = record { objects = []; handlers = [] }

submit_accepted_example :
    (submit (some take_all) empty_world 0 (λ i. i) work).1
    ≡ (run (empty_world, 0) (as_calls (λ i. i) updates)).0
unfolding merge_func
submit_accepted_example = (submit_accepted (some take_all) empty_world 0 (λ i. i) work refl).2
