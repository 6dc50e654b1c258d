-- ===== src/GoMap.antt =====
-- Go's map[string]V as an association list. Go leaves the order of iteration open: it is the order
-- of the list, on which no theorem of the other modules depends.
pub mod Laws
pub mod Entries
use dwcs.Base.{String, Bool, Option, none, some, List, [], ◌∷◌, map, str_eq, if◌then◌else◌}

abbrev pub GoMap {ℓ} : Type ℓ → Type ℓ
GoMap V = List (String × V)

module _ {ℓ} {V : Type ℓ} where
  unfoldable pub lookup : String → GoMap V → Option V
  lookup k [] = none
  lookup k ((j, v) ∷ m) = if str_eq j k then some v else lookup k m

  -- m[k] = v
  unfoldable pub insert : String → V → GoMap V → GoMap V
  insert k v [] = (k, v) ∷ []
  insert k v ((j, w) ∷ m) =
      let rest = insert k v m in if str_eq j k then (k, v) ∷ m else (j, w) ∷ rest

  -- delete(m, k)
  unfoldable pub delete : String → GoMap V → GoMap V
  delete k [] = []
  delete k ((j, w) ∷ m) = let rest = delete k m in if str_eq j k then rest else (j, w) ∷ rest

  -- A write through the pointer at a key.
  unfoldable pub adjust : String → (V → V) → GoMap V → GoMap V
  adjust k f [] = []
  adjust k f ((j, w) ∷ m) =
      let rest = adjust k f m in if str_eq j k then (j, f w) ∷ m else (j, w) ∷ rest

  -- A loop that writes through every pointer.
  unfoldable pub map_values : (V → V) → GoMap V → GoMap V
  map_values f [] = []
  map_values f ((j, w) ∷ m) = (j, f w) ∷ map_values f m

  abbrev pub values : GoMap V → List V
  values = map (λ e. e.1)

  abbrev pub keys : GoMap V → List String
  keys = map (λ e. e.0)
