-- ===== src/AddrBook/Laws.antt =====
-- Each entry stands under its own id, its address leads to it, and no address leads anywhere else.
use dwcs.Base.{
  String, none, some, List, [], ◌∷◌, ◌≡◌, refl, sym, ap, ◌∙◌, ◌⊎◌, inl, inr, arith, Bool-cases,
  str_eq, str_eq_iff, str_eq_refl, if◌then◌else◌, any, All, All-map,
}
use dwcs.GoMap.{values, GoMap, lookup, delete, map_values}
use dwcs.GoMap.Laws.{lookup-insert, lookup-insert_self, lookup-delete, lookup-map_values}
use dwcs.GoMap.Entries.{All-insert, All-delete, All-map_values}
use dwcs.AddrBook.{Book, empty, enter, drop_all}

module _ {V : Type 0} (ident addr : V → String) where
  -- The entry stands under its id, at one place only, and its address leads to it.
  abbrev pub InPlace : Book V → String × V → Type 0
  InPlace b e =
      (ident e.1 ≡ e.0) × (lookup (addr e.1) b.by_addr ≡ some e.0) × (lookup e.0 b.by_id ≡ some e.1)

  pub record IsPaired (b : Book V) : Type 0 where
    pub forth : All (InPlace b) b.by_id
    pub back :
        (a k : String)
        → lookup a b.by_addr ≡ some k
        → (v : V) × (lookup k b.by_id ≡ some v) × (addr v ≡ a)

  pub empty-IsPaired : IsPaired empty
  unfolding lookup
  empty-IsPaired = record { forth = tt; back = λ a k found. absurd (ground arith) }

  -- A new entry, under an id and an address that are not there.
  pub enter-IsPaired :
      (b : Book V) (v : V)
      → lookup (ident v) b.by_id ≡ none
      → lookup (addr v) b.by_addr ≡ none
      → IsPaired b
      → IsPaired (enter (ident v) (addr v) v b)
  unfolding enter
  enter-IsPaired b v new_id new_addr p =
      let id = ident v in
      let b' = enter id (addr v) v b in
      record {
        forth =
            All-insert (InPlace b') id v b.by_id
              (
                refl,
                ground (arith, lookup-insert_self (addr v) id b.by_addr),
                ground (arith, lookup-insert_self id v b.by_id),
              )
              (All-map (InPlace b) (InPlace b') b.by_id
                (λ e h. (
                  h.0,
                  ground (
                    arith,
                    h,
                    lookup-insert (addr v) (addr e.1) id b.by_addr,
                    str_eq_iff (addr v) (addr e.1),
                    new_addr,
                    λ (q : addr v ≡ addr e.1). ap (λ a. lookup a b.by_addr) q,
                  ),
                  ground (
                    arith,
                    h,
                    lookup-insert id e.0 v b.by_id,
                    str_eq_iff id e.0,
                    new_id,
                    λ (q : id ≡ e.0). ap (λ a. lookup a b.by_id) q,
                  ),
                ))
                p.forth);
        back = λ a k found. elim (Bool-cases (str_eq (addr v) a)) [
          | inl e ↦ (
            v,
            ground (
              arith,
              e,
              found,
              lookup-insert (addr v) a id b.by_addr,
              lookup-insert id k v b.by_id,
              str_eq_refl k,
            ),
            (str_eq_iff (addr v) a).0 e,
          )
          | inr e ↦
              (let old : lookup a b.by_addr ≡ some k =
                  ground (arith, e, found, lookup-insert (addr v) a id b.by_addr) in
                let (w, there, at) = p.back a k old in
                (
                  w,
                  ground (
                    arith,
                    there,
                    lookup-insert id k v b.by_id,
                    str_eq_iff id k,
                    new_id,
                    λ (q : id ≡ k). ap (λ a. lookup a b.by_id) q,
                  ),
                  at,
                ))
        ];
      }

  -- The entry is the one that its address leads to, or is gone.
  abbrev pub Matched : Book V → V → Type 0
  Matched b v =
      (lookup (addr v) b.by_addr ≡ some (ident v))
      ⊎ ((lookup (ident v) b.by_id ≡ none) × (lookup (addr v) b.by_addr ≡ none))

  abbrev drop_one : V → Book V → Book V
  drop_one v b = record { by_id = delete (ident v) b.by_id; by_addr = delete (addr v) b.by_addr }

  drop_one-Matched : (b : Book V) (v w : V) → Matched b v → Matched b w → Matched (drop_one v b) w
  drop_one-Matched b v w p q = ground (
    arith,
    lookup-delete (addr v) (addr w) b.by_addr,
    lookup-delete (ident v) (ident w) b.by_id,
    str_eq_iff (addr v) (addr w),
    str_eq_iff (ident v) (ident w),
    p,
    q,
    λ (r : addr v ≡ addr w). ap (λ a. lookup a b.by_addr) r,
  )

  drop_one-IsPaired : (b : Book V) (v : V) → Matched b v → IsPaired b → IsPaired (drop_one v b)
  drop_one-IsPaired b v m p = record {
    forth =
        All-map _ (InPlace (drop_one v b)) _
          (λ e h. (
            h.0.0,
            ground (
              arith,
              h,
              m,
              lookup-delete (addr v) (addr e.1) b.by_addr,
              str_eq_iff (addr v) (addr e.1),
              λ (r : addr v ≡ addr e.1). ap (λ a. lookup a b.by_addr) r,
            ),
            ground (arith, h, lookup-delete (ident v) e.0 b.by_id, str_eq_iff (ident v) e.0),
          ))
          (All-delete (InPlace b) (ident v) b.by_id p.forth);
    back = λ a k found.
        let old : lookup a b.by_addr ≡ some k =
          ground (arith, found, lookup-delete (addr v) a b.by_addr) in
        let (w, there, at) = p.back a k old in
        (
          w,
          elim (Bool-cases (str_eq (ident v) k)) [
            | inl e ↦ absurd (elim m [
              | inl leads ↦
                  (let (u, found_u, at_u) = p.back (addr v) (ident v) leads in
                    let same : w ≡ u = ground (
                      arith,
                      there,
                      found_u,
                      ap (λ j. lookup j b.by_id) ((str_eq_iff (ident v) k).0 e),
                    ) in
                    let to : addr v ≡ a = sym at_u ∙ ap addr (sym same) ∙ at in
                    ground
                      (arith, found, to, str_eq_iff (addr v) a, lookup-delete (addr v) a b.by_addr))
              | inr gone ↦
                  ground
                    (arith, gone, there, ap (λ j. lookup j b.by_id) ((str_eq_iff (ident v) k).0 e))
            ])
            | inr e ↦ ground (arith, there, e, lookup-delete (ident v) k b.by_id)
          ],
          at,
        );
  }

  pub drop_all-IsPaired :
      (vs : List V) (b : Book V)
      → All (Matched b) vs
      → IsPaired b
      → IsPaired (drop_all ident addr vs b)
  unfolding drop_all
  drop_all-IsPaired [] b ms p = p
  drop_all-IsPaired (v ∷ vs) b ms p =
      drop_all-IsPaired vs (drop_one v b)
        (All-map (Matched b) (Matched (drop_one v b)) vs (λ w m. drop_one-Matched b v w ms.0 m)
          ms.1)
        (drop_one-IsPaired b v ms.0 p)

  pub lookup-drop_all :
      (vs : List V) (b : Book V) (k : String)
      → lookup k (drop_all ident addr vs b).by_id
        ≡ (if any (λ v. str_eq (ident v) k) vs then none else lookup k b.by_id)
  unfolding drop_all any
  lookup-drop_all [] b k = refl
  lookup-drop_all (v ∷ vs) b k =
      lookup-drop_all vs (drop_one v b) k ∙ ground (arith, lookup-delete (ident v) k b.by_id)

  -- Every entry is the one that its address leads to.
  pub values-Matched : (b : Book V) → IsPaired b → All (Matched b) (values b.by_id)
  values-Matched b p = go b.by_id p.forth
    where
      go : (xs : GoMap V) → All (InPlace b) xs → All (Matched b) (values xs)
      go [] h = tt
      go ((k, v) ∷ xs) h = (inl (h.0.1 ∙ ap some (sym h.0.0)), go xs h.1)

  -- What is written through the pointers changes neither id nor address.
  pub map_values-IsPaired :
      (f : V → V) (b : Book V)
      → ((v : V) → (ident (f v) ≡ ident v) × (addr (f v) ≡ addr v))
      → IsPaired b
      → IsPaired (record b { by_id = map_values f b.by_id })
  map_values-IsPaired f b keeps p = record {
    forth =
        All-map_values (InPlace b) (InPlace (record b { by_id = map_values f b.by_id })) f b.by_id
          (λ k v h. (
            (keeps v).0 ∙ h.0,
            ap (λ a. lookup a b.by_addr) (keeps v).1 ∙ h.1,
            ground (arith, h, lookup-map_values k f b.by_id),
          ))
          p.forth;
    back = λ a k found.
        let (v, there, at) = p.back a k found in
        (f v, ground (arith, there, lookup-map_values k f b.by_id), (keeps v).1 ∙ at);
  }

module _ {V : Type 0} where
  -- What holds of all entries holds of those that are left.
  pub All-drop_all :
      (P : String × V → Type 0) (ident addr : V → String) (vs : List V) (b : Book V)
      → All P b.by_id
      → All P (drop_all ident addr vs b).by_id
  unfolding drop_all
  All-drop_all P ident addr [] b h = h
  All-drop_all P ident addr (v ∷ vs) b h =
      All-drop_all P ident addr vs _ (All-map _ P _ (λ e k. k.0) (All-delete P (ident v) b.by_id h))
