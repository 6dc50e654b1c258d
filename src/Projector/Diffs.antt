-- ===== src/Projector/Diffs.antt =====
-- computeDiffs for one session.
use dwcs.Base.{
  ℕ, ◌≤◌, ◌<◌, String, Bool, true, ◌&&◌, List, [], ◌∷◌, ◌≡◌, ◌≢◌, refl, sym, ap, ◌∙◌, subst, ◌⊎◌,
  inl, inr, arith, elems, Bool-cases, str_eq, str_eq_iff, str_eq_refl, str_eq_of_ne, if◌then◌else◌,
  ltb, any, all, All,
}
use dwcs.GoMap.{GoMap, lookup, insert, keys}
use dwcs.GoMap.Laws.{lookup-insert}
use dwcs.World.{Object}
use dwcs.Session.{Session, has_tag}
use dwcs.Tags.{TagSet, has, shares_tag}
use dwcs.Protocol.{ObjectDiff}
use dwcs.Projector.{
  diff_of, Projector, last_seen, seen_by, diffs_loop, compute_diffs, session_matches_any_tag,
  matches_any,
}

pub last_seen-insert :
    (id k : String) (v : ℕ) (seen : GoMap ℕ)
    → last_seen id (insert k v seen) ≡ (if str_eq k id then v else last_seen id seen)
unfolding last_seen
last_seen-insert id k v seen = ground (arith, lookup-insert k id v seen)

has-keys : (t : String) (m : TagSet) → has t m ≡ any (λ u. str_eq u t) (keys m)
unfolding has lookup any
has-keys t [] = refl
has-keys t ((u, x) ∷ m) = ground (arith, has-keys t m)

-- The session subscribes to `*` or to a tag of the object.
abbrev pub is_shown : Session → Object → Bool
is_shown s o = shares_tag ("*" ∷ elems o.tags) (keys s.tags)

matches_any-keys : (s : Session) (ts : List String) → matches_any s ts ≡ shares_tag ts (keys s.tags)
unfolding matches_any shares_tag any has_tag
matches_any-keys s [] = refl
matches_any-keys s (t ∷ ts) = ground (arith, has-keys t s.tags, matches_any-keys s ts)

session_matches_any_tag-eq-is_shown :
    (s : Session) (o : Object) → session_matches_any_tag s o.tags ≡ is_shown s o
unfolding session_matches_any_tag shares_tag any has_tag
session_matches_any_tag-eq-is_shown s o =
    ground (arith, has-keys "*" s.tags, matches_any-keys s (elems o.tags))

-- The session is shown the object in its present version, or is not to see it.
abbrev pub UpToDate : Session → GoMap ℕ → Object → Type 0
UpToDate s seen o = is_shown s o ≡ true → o.version ≤ last_seen o.id seen

-- The versions seen never fall.
diffs_loop-le :
    (s : Session) (seen : GoMap ℕ) (os : List Object) (id : String)
    → last_seen id seen ≤ last_seen id (diffs_loop s seen os).1
unfolding diffs_loop
diffs_loop-le s seen [] id = omega arith
diffs_loop-le s seen (o ∷ os) id = ground (
  arith,
  last_seen-insert id o.id o.version seen,
  str_eq_iff o.id id,
  diffs_loop-le s seen os id,
  diffs_loop-le s (insert o.id o.version seen) os id,
)

-- The loop sends an object that is new to the session, and passes over any other.
pub diffs_loop-cases :
    (s : Session) (seen : GoMap ℕ) (o : Object) (os : List Object)
    → ((is_shown s o ≡ true)
        × (last_seen o.id seen < o.version)
        × (diffs_loop s seen (o ∷ os) ≡ (
          diff_of o ∷ (diffs_loop s (insert o.id o.version seen) os).0,
          (diffs_loop s (insert o.id o.version seen) os).1,
        )))
      ⊎ (UpToDate s seen o × (diffs_loop s seen (o ∷ os) ≡ diffs_loop s seen os))
unfolding diffs_loop
diffs_loop-cases s seen o os =
    elim (Bool-cases (session_matches_any_tag s o.tags && ltb (last_seen o.id seen) o.version)) [
      | inl new ↦ inl (
        ground (arith, session_matches_any_tag-eq-is_shown s o),
        ground arith,
        rw (new, diffs_loop),
      )
      | inr old ↦
          inr ((λ m. ground (arith, session_matches_any_tag-eq-is_shown s o)), rw (old, diffs_loop))
    ]

-- After the loop each object of the list is up to date.
diffs_loop-UpToDate :
    (s : Session) (seen : GoMap ℕ) (os : List Object) → All (UpToDate s (diffs_loop s seen os).1) os
diffs_loop-UpToDate s seen [] = tt
diffs_loop-UpToDate s seen (o ∷ os) = elim (diffs_loop-cases s seen o os) [
  | inl (m, new, e) ↦
      subst (λ (x : List ObjectDiff × GoMap ℕ). All (UpToDate s x.1) (o ∷ os)) (sym e)
        (
          (λ _. ground (
            arith,
            last_seen-insert o.id o.id o.version seen,
            str_eq_refl o.id,
            diffs_loop-le s (insert o.id o.version seen) os o.id,
          )),
          diffs_loop-UpToDate s (insert o.id o.version seen) os,
        )
  | inr (old, e) ↦
      subst (λ (x : List ObjectDiff × GoMap ℕ). All (UpToDate s x.1) (o ∷ os)) (sym e)
        ((λ m. ground (arith, old m, diffs_loop-le s seen os o.id)), diffs_loop-UpToDate s seen os)
]

-- Where all is up to date there is nothing to send.
diffs_loop_quiet :
    (s : Session) (seen : GoMap ℕ) (os : List Object)
    → All (UpToDate s seen) os
    → diffs_loop s seen os ≡ ([], seen)
unfolding diffs_loop
diffs_loop_quiet s seen [] h = refl
diffs_loop_quiet s seen (o ∷ os) h = elim (diffs_loop-cases s seen o os) [
  | inl (m, new, e) ↦ absurd (omega (arith, h.0 m))
  | inr (old, e) ↦ e ∙ diffs_loop_quiet s seen os h.1
]

-- Each update that is sent is of an object in the list that the session may see, in a version
-- beyond the one seen before.
abbrev pub IsNews : Session → GoMap ℕ → List Object → ObjectDiff → Type 0
IsNews s seen [] d = ⊥
IsNews s seen (o ∷ os) d =
    ((d ≡ diff_of o) × (is_shown s o ≡ true) × (last_seen o.id seen < o.version))
    ⊎ IsNews s seen os d

IsNews-mono :
    (s : Session) (a b : GoMap ℕ) (os : List Object) (d : ObjectDiff)
    → ((id : String) → last_seen id b ≤ last_seen id a)
    → IsNews s a os d
    → IsNews s b os d
IsNews-mono s a b [] d le h = h
IsNews-mono s a b (o ∷ os) d le (inl (e, m, new)) = inl (e, m, omega (arith, le o.id))
IsNews-mono s a b (o ∷ os) d le (inr h) = inr (IsNews-mono s a b os d le h)

All-impl :
    (P Q : ObjectDiff → Type 0) (ds : List ObjectDiff)
    → ((d : ObjectDiff) → P d → Q d)
    → All P ds
    → All Q ds
All-impl P Q [] f h = tt
All-impl P Q (d ∷ ds) f h = (f d h.0, All-impl P Q ds f h.1)

insert-le :
    (o : Object) (seen : GoMap ℕ)
    → last_seen o.id seen < o.version
    → (id : String) → last_seen id seen ≤ last_seen id (insert o.id o.version seen)
insert-le o seen new id =
    ground (arith, last_seen-insert id o.id o.version seen, str_eq_iff o.id id)

diffs_loop-IsNews :
    (s : Session) (seen : GoMap ℕ) (os : List Object)
    → All (IsNews s seen os) (diffs_loop s seen os).0
unfolding diffs_loop
diffs_loop-IsNews s seen [] = tt
diffs_loop-IsNews s seen (o ∷ os) = elim (diffs_loop-cases s seen o os) [
  | inl (m, new, e) ↦ rw e (
    inl (refl, m, new),
    All-impl _ _ _
        (λ d h. inr (IsNews-mono s (insert o.id o.version seen) seen os d (insert-le o seen new) h))
        (diffs_loop-IsNews s (insert o.id o.version seen) os),
  )
  | inr (old, e) ↦ rw e (All-impl _ _ _ (λ d h. inr h) (diffs_loop-IsNews s seen os))
]

pub seen_by-insert :
    (id j : String) (seen : GoMap ℕ) (p : Projector)
    → seen_by j (record p { seen = insert id seen p.seen })
      ≡ (if str_eq id j then seen else seen_by j p)
unfolding seen_by
seen_by-insert id j seen p = ground (arith, lookup-insert id j seen p.seen)

-- computeDiffs sends only news, and leaves the session up to date with every object of the list;
-- the versions seen never fall, and what other sessions have seen is untouched.
pub compute_diffs_lem :
    (p : Projector) (s : Session) (all : List Object)
    → let (diffs, p') = compute_diffs p s all in
      All (IsNews s (seen_by s.id p) all) diffs
      × All (UpToDate s (seen_by s.id p')) all
      × ((id : String) → last_seen id (seen_by s.id p) ≤ last_seen id (seen_by s.id p'))
      × ((j : String) → s.id ≢ j → seen_by j p' ≡ seen_by j p)
unfolding compute_diffs
compute_diffs_lem p s all =
    let seen = seen_by s.id p in
    let own : seen_by s.id (compute_diffs p s all).1 ≡ (diffs_loop s seen all).1 =
      rw (seen_by-insert, str_eq_refl) in
    (
      diffs_loop-IsNews s seen all,
      rw own (diffs_loop-UpToDate s seen all),
      (λ id. rw own (diffs_loop-le s seen all id)),
      λ j ne. rw (seen_by-insert s.id j (diffs_loop s seen all).1 p, str_eq_of_ne s.id j ne),
    )

-- A session that is up to date is sent nothing, and nothing is noted.
pub compute_diffs_quiet :
    (p : Projector) (s : Session) (all : List Object)
    → All (UpToDate s (seen_by s.id p)) all
    → ((compute_diffs p s all).0 ≡ [])
      × ((j : String) → seen_by j (compute_diffs p s all).1 ≡ seen_by j p)
unfolding compute_diffs
compute_diffs_quiet p s all h =
    let quiet = diffs_loop_quiet s (seen_by s.id p) all h in
    let noted = λ (j : String). seen_by-insert s.id j (diffs_loop s (seen_by s.id p) all).1 p in
    (
      ap (λ x. x.0) quiet,
      λ j. elim (Bool-cases (str_eq s.id j)) [
        | inl same ↦
            let e : s.id ≡ j = (str_eq_iff s.id j).0 same in
            ground (arith, noted j, ap (λ x. x.1) quiet, ap (λ k. seen_by k p) e)
        | inr other ↦ ground (arith, noted j)
      ],
    )
