-- ===== src/Task/Sections.antt =====
-- A lease while the critical sections of several Acquires interleave with other calls.
use dwcs.Base.{
  ℕ, ◌+◌, ◌≤◌, String, List, [], ◌∷◌, ◌≡◌, ◌≢◌, inl, inr, arith, ok, err, Duration, Option-cases,
  Bool-cases, str_eq, str_eq_iff, str_eq_of_ne, All,
}
use dwcs.GoMap.{lookup}
use dwcs.GoMap.Laws.{lookup-insert}
use dwcs.Task.{
  task_not_available, AcquireResult, acquire, Task, Registry, freed, granted_to, lease_for,
  acquire_check, acquire_grant, reclaim, check_task, is_expired, announce_expired, refused, free,
  reclaimed,
}
use dwcs.Task.Acquire.{acquire_granted, acquire_held}
use dwcs.Task.Leases.{Call, Respects, step, Holds, step-Holds}

-- A call that returns before the next step, or one step of an Acquire: its first critical section, the
-- callbacks after that section has taken the task from its owner, and its last critical section. Other
-- steps may come between the steps of an Acquire; where it holds the lock from the first to the last,
-- because the task is free, these lists have more orders than the code.
pub data Section : Type 0 where
  alone : Call → Section
  checks : String → ℕ → Section
  tells : String → Task → Section
  grants : String → String → Duration → ℕ → ℕ → Section

-- A call respects the lease as before, and a first section makes its test by the end of the lease. No
-- last section is for this task: an Acquire of it whose test came under the lease was refused.
abbrev pub Spares : String → String → ℕ → Section → Type 0
Spares id owner until (alone c) = Respects owner until c
Spares id owner until (checks j now) = now ≤ until
Spares id owner until (tells j t) = Unit {0}
Spares id owner until (grants j by dur now stamp) = j ≢ id

module _ {S : Type 0} where
  -- The first critical section of Acquire, on the registry.
  unfoldable pub check_section : Registry S → String → ℕ → Registry S
  check_section r id now = elim (acquire_check r id now) [
    | refused e ↦ r
    | free ↦ r
    | reclaimed t ↦ reclaim r id t
  ]

  unfoldable pub section_step : Registry S × S → Section → Registry S × S
  unfolding check_section
  section_step rs (alone c) = step rs c
  section_step (r, s) (checks id now) = (check_section r id now, s)
  section_step (r, s) (tells id t) = (r, announce_expired r id t s)
  section_step (r, s) (grants id by dur now stamp) = ((acquire_grant r id by dur now stamp).1, s)

  unfoldable pub run_sections : Registry S × S → List Section → Registry S × S
  run_sections rs [] = rs
  run_sections rs (c ∷ cs) = run_sections (section_step rs c) cs

  check_section-Holds :
      (id owner : String) (until : ℕ) (r : Registry S) (j : String) (now : ℕ)
      → now ≤ until
      → Holds id owner until r
      → Holds id owner until (check_section r j now)
  unfolding check_section acquire_check reclaim check_task is_expired
  check_section-Holds id owner until r j now early (t, found, st, who, lease) =
      elim (Bool-cases (str_eq j id)) [
        | inl same ↦ (t, ground (arith, str_eq_iff j id), st, who, lease)
        | inr other ↦ elim (Option-cases (lookup j r.tasks)) [
          | inl missing ↦ (t, ground arith, st, who, lease)
          | inr (u, there) ↦
              (t, ground (arith, lookup-insert j id (freed u) r.tasks), st, who, lease)
        ]
      ]

  acquire_grant-Holds :
      (id owner : String) (until : ℕ) (r : Registry S) (j by : String) (dur : Duration)
      (now stamp : ℕ)
      → j ≢ id
      → Holds id owner until r
      → Holds id owner until (acquire_grant r j by dur now stamp).1
  unfolding acquire_grant
  acquire_grant-Holds id owner until r j by dur now stamp other (t, found, st, who, lease) =
      elim (Option-cases (lookup j r.tasks)) [
        | inl missing ↦ (t, ground arith, st, who, lease)
        | inr (u, there) ↦ (
          t,
          ground (
            arith,
            lookup-insert j id (granted_to by (now + lease_for dur) stamp u) r.tasks,
            str_eq_of_ne j id other,
          ),
          st,
          who,
          lease,
        )
      ]

  section_step-Holds :
      (id owner : String) (until : ℕ) (r : Registry S) (s : S) (c : Section)
      → Spares id owner until c
      → Holds id owner until r
      → Holds id owner until (section_step (r, s) c).0
  unfolding section_step
  section_step-Holds id owner until r s (alone c) calm h = step-Holds id owner until r s c calm h
  section_step-Holds id owner until r s (checks j now) calm h =
      check_section-Holds id owner until r j now calm h
  section_step-Holds id owner until r s (tells j t) calm h = h
  section_step-Holds id owner until r s (grants j by dur now stamp) calm h =
      acquire_grant-Holds id owner until r j by dur now stamp calm h

  run_sections_lem :
      (id owner : String) (until : ℕ) (r : Registry S) (s : S) (cs : List Section)
      → All (Spares id owner until) cs
      → Holds id owner until r
      → Holds id owner until (run_sections (r, s) cs).0
  unfolding run_sections
  run_sections_lem id owner until r s [] calm h = h
  run_sections_lem id owner until r s (c ∷ cs) calm h =
      let (r', s') = section_step (r, s) c in
      run_sections_lem id owner until r' s' cs calm.1
        (section_step-Holds id owner until r s c calm.0 h)

  check_refused :
      (id owner : String) (until : ℕ) (r : Registry S) (now : ℕ)
      → now ≤ until
      → Holds id owner until r
      → acquire_check r id now ≡ refused task_not_available
  unfolding acquire_check check_task is_expired
  check_refused id owner until r now early (t, found, st, who, lease) = ground arith

  -- A lease holds to its end, however the critical sections of Acquires, by anybody, come in between each
  -- other and in between other calls, evictions included: a task that is held under a lease stays its
  -- owner's under the same lease, and an Acquire of it that then makes its test, in its first critical
  -- section, is refused. This is so as long as the clock has not passed the lease, the owner releases
  -- and completes nothing, and no Acquire of this very task enters its last critical section, as one
  -- does that made its test before the lease began.
  pub run_sections-Holds :
      (id owner : String) (until now : ℕ) (r : Registry S) (s : S) (cs : List Section)
      → All (Spares id owner until) cs
      → now ≤ until
      → Holds id owner until r
      → Holds id owner until (run_sections (r, s) cs).0
        × (acquire_check (run_sections (r, s) cs).0 id now ≡ refused task_not_available)
  run_sections-Holds id owner until now r s cs calm early h =
      let held = run_sections_lem id owner until r s cs calm h in
      (held, check_refused id owner until (run_sections (r, s) cs).0 now early held)

  -- Mutual exclusion: after an Acquire that is granted with no call between its two critical sections, and
  -- then any calls and critical sections of other Acquires, interleaved, that make their tests by the
  -- end of the lease, in which the owner releases and completes nothing, and no Acquire of this very
  -- task enters its last critical section, as one does that made its test before: a further Acquire of
  -- the task, by anybody, that makes its test by the end of the lease is refused and changes nothing.
  pub acquire_excludes :
      (r : Registry S) (s : S) (id owner by : String) (d e : Duration) (c n u c' n' u' : ℕ)
      (a : AcquireResult) (cs : List Section)
      → (acquire r s id owner d c n u).0 ≡ ok a
      → All (Spares id owner a.lease_until) cs
      → c' ≤ a.lease_until
      → let (_, r₁, s₁) = acquire r s id owner d c n u in
        let (r₂, s₂) = run_sections (r₁, s₁) cs in
        acquire r₂ s₂ id by e c' n' u' ≡ (err task_not_available, r₂, s₂)
  acquire_excludes r s id owner by d e c n u c' n' u' a cs granted calm early =
      let (_, r₁, s₁) = acquire r s id owner d c n u in
      let (r₂, s₂) = run_sections (r₁, s₁) cs in
      let (t, found, could, task, stored, later) = acquire_granted r s id owner d c n u a granted in
      let start : Holds id owner a.lease_until r₁ = (
        a.task,
        stored,
        unfold granted_to in ground arith,
        unfold granted_to in ground arith,
        unfold granted_to in ground arith,
      ) in
      let (t', found', st, who, lease) =
        run_sections_lem id owner a.lease_until r₁ s₁ cs calm start in
      acquire_held r₂ s₂ id by e c' n' u' t' found' st (omega arith)
