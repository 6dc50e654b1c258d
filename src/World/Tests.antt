-- ===== src/World/Tests.antt =====
-- The theorems on the world at concrete inputs, and runs of the code.
use dwcs.Base.{
  ℕ, ◌+◌, none, some, List, [], ◌∷◌, ◌≡◌, refl, arith, ok, err, panicked, Handler, recovered,
  str_eq,
}
use dwcs.GoMap.{lookup, insert}
use dwcs.World.{World, version_conflict, Object, UpdateRequest, ChangeEvent, apply, fire, new}
use dwcs.World.Apply.{apply_accepted, apply_lost_race}
use dwcs.World.Versions.{Call, applies, deletes, run, IsVersioned, run-new-IsVersioned}

-- A callback that counts, and panics.
abbrev pub counting : Handler ChangeEvent ℕ
counting evt n = panicked (n + 1)

abbrev pub door : Object
door = record {
  id = "door";
  payload = some (1 ∷ []);
  version = 3;
  tags = some ("room" ∷ []);
  meta = none;
  updated_at = 5;
}

abbrev pub house : World ℕ
house = record { objects = ("door", door) ∷ []; handlers = counting ∷ counting ∷ [] }

-- An update of the door, at version 3, that gives no tags.
abbrev pub opening : UpdateRequest
opening = record {
  object_id = "door";
  payload = some (2 ∷ []);
  expected_version = 3;
  tags = none;
  meta = none;
}

abbrev stale : UpdateRequest
stale = record opening { expected_version = 2 }

abbrev opened : Object
opened = record door { payload = some (2 ∷ []); version = 4; updated_at = 9 }

apply-opening :
    apply house 0 9 opening ≡ (ok opened, record house { objects = ("door", opened) ∷ [] }, 2)
unfolding apply lookup insert str_eq fire recovered
apply-opening = refl

apply_accepted_example : lookup "door" (apply house 0 9 opening).1.objects ≡ some opened
unfolding apply lookup insert str_eq
apply_accepted_example = (apply_accepted house 0 9 opening opened refl).0

apply_lost_race_example :
    apply (apply house 0 9 opening).1 (apply house 0 9 opening).2 10 opening
    ≡ (err version_conflict, (apply house 0 9 opening).1, (apply house 0 9 opening).2)
unfolding apply lookup insert str_eq
apply_lost_race_example =
    apply_lost_race house 0 9 10 opening opening opened refl refl (omega arith) refl

abbrev history : List Call
history =
    applies 1 (record opening { expected_version = 0 }) ∷ applies 2 stale ∷ deletes "door" ∷ []

run-new-IsVersioned_example : IsVersioned {S = ℕ} 3 (run (new, 0) history).0
run-new-IsVersioned_example = run-new-IsVersioned 0 history (omega arith)
