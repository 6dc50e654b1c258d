-- ===== src/World.antt =====
-- internal/world/world.go: the shared objects, their versions, and the change callbacks. `S` is the
-- state that the callbacks act on; a method takes the readings of time.Now() that it makes.
pub mod Apply
pub mod Versions
pub mod Listing
pub mod Tests
use dwcs.Base.{
  ℕ, ◌%◌, ◌^◌, String, Bool, true, false, Option, none, some, List, [], ◌∷◌, ◌++◌, map, ltb, ◌==◌,
  Result, ok, err, Slice, Bytes, next_uint64, Outcome, Handler, recovered, keep, if◌then◌else◌,
}
use dwcs.GoMap.{GoMap, lookup, insert, delete, values}
use dwcs.Tags.{to_set, passes_filter}

pub data WorldError : Type 0 where
  object_not_found version_conflict : WorldError

-- err.Error()
unfoldable pub error_text : WorldError → String
error_text object_not_found = "object not found"
error_text version_conflict = "version conflict: submitted version is stale"

pub record Object : Type 0 where
  pub id : String
  pub payload : Bytes
  pub version : ℕ
  pub tags : Slice String
  pub meta : Bytes
  pub updated_at : ℕ

pub record UpdateRequest : Type 0 where
  pub object_id : String
  pub payload : Bytes
  pub expected_version : ℕ
  pub tags : Slice String
  pub meta : Bytes

pub data ChangeKind : Type 0 where
  created updated deleted : ChangeKind

pub record ChangeEvent : Type 0 where
  pub kind : ChangeKind
  pub object : Object
  pub prev_version : ℕ

pub record World (S : Type 0) : Type 0 where
  pub objects : GoMap Object
  pub handlers : List (Handler ChangeEvent S)

-- copyTags and copyBytes: nil stays nil, and an empty slice stays an empty slice.
unfoldable pub copy_slice {ℓ} : {A : Type ℓ} → Slice A → Slice A
copy_slice none = none
copy_slice (some xs) = some xs

unfoldable pub clone_object : Object → Object
unfolding copy_slice
clone_object o = record {
  id = o.id;
  payload = copy_slice o.payload;
  version = o.version;
  tags = copy_slice o.tags;
  meta = copy_slice o.meta;
  updated_at = o.updated_at;
}

-- data := copyBytes(req.Data); if data == nil && exists { data = copyBytes(existing.Data) }
unfoldable pub or_existing {ℓ} : {A : Type ℓ} → Slice A → Option (Slice A) → Slice A
unfolding copy_slice
or_existing (some xs) existing = some xs
or_existing none none = none
or_existing none (some xs) = copy_slice xs

-- The tests under req.ExpectedVersion > 0.
unfoldable pub check_expected : Option Object → ℕ → Option WorldError
check_expected none expected = if ltb 0 expected then some object_not_found else none
check_expected (some o) expected =
    if ltb 0 expected then (if o.version == expected then none else some version_conflict) else none

unfoldable pub prev_version_of : Option Object → ℕ
prev_version_of none = 0
prev_version_of (some o) = o.version

unfoldable pub next_version : Option Object → ℕ
next_version none = 1
next_version (some o) = next_uint64 o.version

unfoldable pub kind_of : Option Object → ChangeKind
kind_of none = created
kind_of (some o) = updated

abbrev on_existing {ℓ} : {A : Type ℓ} → (Object → Slice A) → Option Object → Option (Slice A)
on_existing f none = none
on_existing f (some o) = some (f o)

-- The object that Apply stores.
unfoldable pub merged : Option Object → UpdateRequest → ℕ → Object
unfolding or_existing next_version
merged existing req now = record {
  id = req.object_id;
  payload = or_existing req.payload (on_existing (λ o. o.payload) existing);
  version = next_version existing;
  tags = or_existing req.tags (on_existing (λ o. o.tags) existing);
  meta = or_existing req.meta (on_existing (λ o. o.meta) existing);
  updated_at = now;
}

module _ {S : Type 0} where
  unfoldable pub new : World S
  new = record { objects = []; handlers = [] }

  unfoldable pub on_change : World S → Handler ChangeEvent S → World S
  on_change w h = record w { handlers = w.handlers ++ h ∷ [] }

  unfoldable pub get : World S → String → Result WorldError Object
  unfolding clone_object
  get w id = elim (lookup id w.objects) [
    | none ↦ err object_not_found
    | some o ↦ ok (clone_object o)
  ]

  unfoldable pub list : World S → Slice String → List Object
  unfolding clone_object
  list w filter_tags =
      map clone_object (keep (λ o. passes_filter o.tags (to_set filter_tags)) (values w.objects))

  unfoldable pub snapshot : World S → List Object
  unfolding clone_object
  snapshot w = map clone_object (values w.objects)

  -- Every handler runs, also after one that panicked.
  unfoldable pub fire : ChangeEvent → List (Handler ChangeEvent S) → S → S
  fire evt [] s = s
  fire evt (h ∷ hs) s = fire evt hs (recovered (h evt s))

  unfoldable pub store :
      World S → S → Option Object → UpdateRequest → ℕ → Result WorldError Object × World S × S
  unfolding merged kind_of prev_version_of
  store w s existing req now =
      let o = merged existing req now in
      (
        ok o,
        record w { objects = insert req.object_id o w.objects },
        fire
            (record {
              kind = kind_of existing;
              object = o;
              prev_version = prev_version_of existing;
            })
            w.handlers s,
      )

  unfoldable pub apply : World S → S → ℕ → UpdateRequest → Result WorldError Object × World S × S
  unfolding store check_expected
  apply w s now req =
      let existing = lookup req.object_id w.objects in
      elim (check_expected existing req.expected_version) [
        | some e ↦ (err e, w, s)
        | none ↦ store w s existing req now
      ]

  unfoldable pub delete_object : World S → S → String → Bool × World S × S
  unfolding clone_object
  delete_object w s id = elim (lookup id w.objects) [
    | none ↦ (false, w, s)
    | some o ↦ (
      true,
      record w { objects = delete id w.objects },
      fire (record { kind = deleted; object = clone_object o; prev_version = o.version }) w.handlers
          s,
    )
  ]
