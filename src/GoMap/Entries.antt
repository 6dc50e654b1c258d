-- ===== src/GoMap/Entries.antt =====
-- What holds of every entry of a map.
use dwcs.Base.{
  String, Bool, true, some, [], ◌∷◌, ◌≡◌, ◌≢◌, ap, ◌∙◌, subst, inl, inr, arith, Bool-cases, str_eq,
  str_eq_iff, keep, any, All,
}
use dwcs.GoMap.{GoMap, lookup, insert, delete, map_values, values}

module _ {V : Type 0} where
  pub All-insert :
      (P : String × V → Type 0) (k : String) (v : V) (m : GoMap V)
      → P (k, v)
      → All P m
      → All P (insert k v m)
  unfolding insert
  All-insert P k v [] p h = (p, tt)
  All-insert P k v ((j, w) ∷ m) p h = elim (Bool-cases (str_eq j k)) [
    | inl e ↦ rw (e, insert) (p, h.1)
    | inr e ↦ rw (e, insert) (h.0, All-insert P k v m p h.1)
  ]

  pub All-delete :
      (P : String × V → Type 0) (k : String) (m : GoMap V)
      → All P m
      → All (λ e. P e × (e.0 ≢ k)) (delete k m)
  unfolding delete
  All-delete P k [] h = tt
  All-delete P k ((j, w) ∷ m) h = elim (Bool-cases (str_eq j k)) [
    | inl e ↦ rw (e, delete) (All-delete P k m h.1)
    | inr e ↦
        rw (e, delete) ((h.0, λ p. ground (arith, str_eq_iff j k, p, e)), All-delete P k m h.1)
  ]

  pub All-map_values :
      (P Q : String × V → Type 0) (f : V → V) (m : GoMap V)
      → ((k : String) (v : V) → P (k, v) → Q (k, f v))
      → All P m
      → All Q (map_values f m)
  unfolding map_values
  All-map_values P Q f [] keeps h = tt
  All-map_values P Q f ((j, w) ∷ m) keeps h = (keeps j w h.0, All-map_values P Q f m keeps h.1)

  pub All-lookup :
      (P : String × V → Type 0) (k : String) (v : V) (m : GoMap V)
      → All P m
      → lookup k m ≡ some v
      → P (k, v)
  unfolding lookup
  All-lookup P k v [] h found = absurd (ground (arith, found))
  All-lookup P k v ((j, w) ∷ m) h found = elim (Bool-cases (str_eq j k)) [
    | inl e ↦
        (let same : w ≡ v = ground (arith, e, found) in
          subst (λ (x : String × V). P x) (λ i. ((str_eq_iff j k).0 e i, same i)) h.0)
    | inr e ↦ All-lookup P k v m h.1 (ground (arith, e, found))
  ]

  -- What a key leads to is among the values that pass a test, if it passes.
  pub any-keep-values :
      (ident : V → String) (v : V) (k : String) (q : V → Bool) (m : GoMap V)
      → lookup k m ≡ some v
      → ident v ≡ k
      → q v ≡ true
      → any (λ w. str_eq (ident w) k) (keep q (values m)) ≡ true
  unfolding any keep lookup
  any-keep-values ident v k q [] found own passes = absurd (ground (arith, found))
  any-keep-values ident v k q ((j, w) ∷ m) found own passes = elim (Bool-cases (str_eq j k)) [
    | inl e ↦
        (let here : w ≡ v = ground (arith, found, e) in
          let passes_w : q w ≡ true = ap q here ∙ passes in
          let own_w : str_eq (ident w) k ≡ true =
            (str_eq_iff (ident w) k).1 (ap ident here ∙ own) in
          ground (arith, passes_w, own_w))
    | inr e ↦ ground (arith, any-keep-values ident v k q m (ground (arith, found, e)) own passes)
  ]
