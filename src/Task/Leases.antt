-- ===== src/Task/Leases.antt =====
-- The calls that change the registry, and what each does to a lease.
use dwcs.Base.{
  ℕ, ◌≤◌, String, some, List, [], ◌∷◌, ◌≡◌, ◌≢◌, inl, inr, arith, Slice, Bytes, append_copy,
  Duration, Bool-cases, str_eq, str_eq_iff,
}
use dwcs.GoMap.{lookup}
use dwcs.GoMap.Laws.{lookup-insert, lookup-map_values}
use dwcs.Task.{
  available, owned, Task, Registry, acquire, release, mark_completed, register, release_all,
  evict_expired, free_if, is_owned_by, is_lapsed,
}
use dwcs.Task.Acquire.{acquire_held, lookup-acquire_ne, release_lem, lookup-mark_completed_ne}

-- A call that changes the registry, with the times that it reads.
pub data Call : Type 0 where
  registers : String → Slice String → Bytes → ℕ → ℕ → Call
  acquires : String → String → Duration → ℕ → ℕ → ℕ → Call
  releases : String → String → ℕ → Call
  releases_all : String → (String → ℕ) → Call
  completes : String → String → ℕ → Call
  evicts : ℕ → (String → ℕ) → Call

-- The call leaves a lease of `owner` until `until` alone: it makes its lease tests by then, and it
-- does not give the owner's tasks up.
abbrev pub Respects : String → ℕ → Call → Type 0
Respects owner until (registers id tags hint now stamp) = Unit {0}
Respects owner until (acquires id by dur checked now stamp) = checked ≤ until
Respects owner until (releases id by now) = by ≢ owner
Respects owner until (releases_all by stamp) = by ≢ owner
Respects owner until (completes id by now) = by ≢ owner
Respects owner until (evicts now stamp) = now ≤ until

module _ {S : Type 0} where
  unfoldable pub step : Registry S × S → Call → Registry S × S
  step (r, s) (registers id tags hint now stamp) =
      let (_, r', s') = register r s id tags hint now stamp in (r', s')
  step (r, s) (acquires id by dur checked now stamp) =
      let (_, r', s') = acquire r s id by dur checked now stamp in (r', s')
  step (r, s) (releases id by now) = let (_, r', s') = release r s id by now in (r', s')
  step (r, s) (releases_all by stamp) = let (_, r', s') = release_all r s by stamp in (r', s')
  step (r, s) (completes id by now) = let (_, r') = mark_completed r id by now in (r', s)
  step (r, s) (evicts now stamp) = evict_expired r s now stamp

  unfoldable pub run : Registry S × S → List Call → Registry S × S
  run rs [] = rs
  run rs (c ∷ cs) = run (step rs c) cs

  -- The task is owned by `owner` until `until`.
  abbrev pub Holds : String → String → ℕ → Registry S → Type 0
  Holds id owner until r =
      (t : Task) × (lookup id r.tasks ≡ some t)
      × (t.status ≡ owned)
      × (t.owner_id ≡ owner)
      × (t.lease_until ≡ until)

  register-Holds :
      (id owner : String) (until : ℕ) (r : Registry S) (s : S) (j : String) (tags : Slice String)
      (hint : Bytes) (now stamp : ℕ)
      → Holds id owner until r
      → Holds id owner until (register r s j tags hint now stamp).1
  unfolding register
  register-Holds id owner until r s j tags hint now stamp (t, found, st, who, lease) = (
    t,
    ground (
      arith,
      str_eq_iff j id,
      lookup-insert j id
          (record {
            id = j;
            tags = append_copy tags;
            hint = append_copy hint;
            status = available;
            owner_id = "";
            lease_until = 0;
            created_at = now;
            updated_at = stamp;
          })
          r.tasks,
    ),
    st,
    who,
    lease,
  )

  acquire-Holds :
      (id owner : String) (until : ℕ) (r : Registry S) (s : S) (j by : String) (dur : Duration)
      (checked now stamp : ℕ)
      → checked ≤ until
      → Holds id owner until r
      → Holds id owner until (acquire r s j by dur checked now stamp).1
  acquire-Holds id owner until r s j by dur checked now stamp early (t, found, st, who, lease) =
      elim (Bool-cases (str_eq j id)) [
        | inl same ↦ (
          t,
          ground (arith, str_eq_iff j id, acquire_held r s j by dur checked now stamp t),
          st,
          who,
          lease,
        )
        | inr other ↦ (
          t,
          ground (arith, lookup-acquire_ne r s j by dur checked now stamp id, str_eq_iff j id),
          st,
          who,
          lease,
        )
      ]

  release-Holds :
      (id owner : String) (until : ℕ) (r : Registry S) (s : S) (j by : String) (now : ℕ)
      → by ≢ owner
      → Holds id owner until r
      → Holds id owner until (release r s j by now).1
  unfolding release
  release-Holds id owner until r s j by now stranger (t, found, st, who, lease) =
      elim (Bool-cases (str_eq j id)) [
        | inl same ↦ (t, ground (arith, str_eq_iff j id, str_eq_iff t.owner_id by), st, who, lease)
        | inr other ↦
            (t, ground (arith, (release_lem r s j by now id).2, str_eq_iff j id), st, who, lease)
      ]

  completed-Holds :
      (id owner : String) (until : ℕ) (r : Registry S) (j by : String) (now : ℕ)
      → by ≢ owner
      → Holds id owner until r
      → Holds id owner until (mark_completed r j by now).1
  unfolding mark_completed
  completed-Holds id owner until r j by now stranger (t, found, st, who, lease) =
      elim (Bool-cases (str_eq j id)) [
        | inl same ↦ (t, ground (arith, str_eq_iff j id, str_eq_iff t.owner_id by), st, who, lease)
        | inr other ↦ (
          t,
          ground (arith, lookup-mark_completed_ne r j by now id, str_eq_iff j id),
          st,
          who,
          lease,
        )
      ]

  -- A call that respects a lease leaves it as it is.
  pub step-Holds :
      (id owner : String) (until : ℕ) (r : Registry S) (s : S) (c : Call)
      → Respects owner until c
      → Holds id owner until r
      → Holds id owner until (step (r, s) c).0
  unfolding step release_all evict_expired
  step-Holds id owner until r s (registers j tags hint now stamp) calm h =
      register-Holds id owner until r s j tags hint now stamp h
  step-Holds id owner until r s (acquires j by dur checked now stamp) calm h =
      acquire-Holds id owner until r s j by dur checked now stamp calm h
  step-Holds id owner until r s (releases j by now) calm h =
      release-Holds id owner until r s j by now calm h
  step-Holds id owner until r s (releases_all by stamp) calm (t, found, st, who, lease) = (
    t,
    ground (
      arith,
      lookup-map_values id (free_if (is_owned_by by) stamp) r.tasks,
      str_eq_iff t.owner_id by,
    ),
    st,
    who,
    lease,
  )
  step-Holds id owner until r s (completes j by now) calm h =
      completed-Holds id owner until r j by now calm h
  step-Holds id owner until r s (evicts now stamp) calm (t, found, st, who, lease) = (
    t,
    ground (arith, lookup-map_values id (free_if (is_lapsed now) stamp) r.tasks),
    st,
    who,
    lease,
  )
