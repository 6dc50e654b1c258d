-- ===== src/GoMap/Laws.antt =====
-- The laws of maps.
use dwcs.Base.{
  String, Bool, true, keep, Option, none, some, [], ◌∷◌, ◌≡◌, refl, arith, str_eq, str_eq_iff,
  str_eq_refl, if◌then◌else◌,
}
use dwcs.GoMap.{GoMap, lookup, insert, delete, adjust, map_values}

module _ {ℓ} {V : Type ℓ} where
  pub lookup-insert :
      (k j : String) (v : V) (m : GoMap V)
      → lookup j (insert k v m) ≡ (if str_eq k j then some v else lookup j m)
  unfolding lookup insert
  lookup-insert k j v [] = refl
  lookup-insert k j v ((i, w) ∷ m) =
      ground (arith, str_eq_iff k j, str_eq_iff i k, str_eq_iff i j, lookup-insert k j v m)

  pub lookup-delete :
      (k j : String) (m : GoMap V)
      → lookup j (delete k m) ≡ (if str_eq k j then none else lookup j m)
  unfolding lookup delete
  lookup-delete k j [] = ground arith
  lookup-delete k j ((i, w) ∷ m) =
      ground (arith, str_eq_iff k j, str_eq_iff i k, str_eq_iff i j, lookup-delete k j m)

  abbrev pub map_option : (V → V) → Option V → Option V
  map_option f none = none
  map_option f (some v) = some (f v)

  pub lookup-adjust :
      (k j : String) (f : V → V) (m : GoMap V)
      → lookup j (adjust k f m) ≡ (if str_eq k j then map_option f (lookup j m) else lookup j m)
  unfolding lookup adjust
  lookup-adjust k j f [] = ground arith
  lookup-adjust k j f ((i, w) ∷ m) =
      ground (arith, str_eq_iff k j, str_eq_iff i k, str_eq_iff i j, lookup-adjust k j f m)

  pub lookup-map_values :
      (j : String) (f : V → V) (m : GoMap V) → lookup j (map_values f m) ≡ map_option f (lookup j m)
  unfolding lookup map_values
  lookup-map_values j f [] = refl
  lookup-map_values j f ((i, w) ∷ m) = ground (arith, lookup-map_values j f m)

  pub lookup-insert_self : (k : String) (v : V) (m : GoMap V) → lookup k (insert k v m) ≡ some v
  lookup-insert_self k v m = simp (lookup-insert, str_eq_refl)

  pub lookup-delete_self : (k : String) (m : GoMap V) → lookup k (delete k m) ≡ none
  lookup-delete_self k m = simp (lookup-delete, str_eq_refl)

  -- A loop that deletes by a test of the value keeps an entry that does not fall to it.
  pub lookup-keep :
      (k : String) (v : V) (q : V → Bool) (m : GoMap V)
      → lookup k m ≡ some v
      → q v ≡ true
      → lookup k (keep (λ e. q e.1) m) ≡ some v
  unfolding lookup keep
  lookup-keep k v q [] found stays = ground arith
  lookup-keep k v q ((j, w) ∷ m) found stays = ground (arith, str_eq_iff j k, lookup-keep k v q m)
