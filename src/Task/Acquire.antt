-- ===== src/Task/Acquire.antt =====
-- Registry.Acquire and Release, when no other call comes in between.
use dwcs.Base.{
  ℕ, zero, suc, ◌+◌, ◌≤◌, ◌<◌, String, none, some, ◌≡◌, ◌≢◌, refl, ◌⊎◌, inl, inr, arith, ok, err,
  Duration, pos, negsuc, Option-cases, str_eq_iff, str_eq_of_ne,
}
use dwcs.GoMap.{lookup}
use dwcs.GoMap.Laws.{lookup-insert, lookup-insert_self}
use dwcs.Task.{
  TaskError, task_not_found, task_not_available, not_owner, Status, available, owned, completed,
  Task, AcquireResult, Registry, freed, lease_for, granted_to, acquire, reclaim, announce_expired,
  release, mark_completed, fire_available, available_of,
}

-- The lease can be taken over at this time.
abbrev pub IsLapsed : Task → ℕ → Type 0
IsLapsed t now = (0 < t.lease_until) × (t.lease_until < now)

pub 0-lt-lease_for : (d : Duration) → 0 < lease_for d
unfolding lease_for
0-lt-lease_for (pos zero) = omega arith
0-lt-lease_for (pos (suc n)) = omega arith
0-lt-lease_for (negsuc n) = omega arith

status-cases : (x : Status) → (x ≢ owned) ⊎ (x ≡ owned)
status-cases owned = inr refl
status-cases available = inl (λ e. cc)
status-cases completed = inl (λ e. cc)

module _ {S : Type 0} (r : Registry S) (s : S) (id owner : String) (dur : Duration)
    (checked now stamp : ℕ) where
  -- A refused Acquire changes neither the registry nor what the callbacks act on, and it is refused
  -- only for a task that is missing, or that is owned under a lease that has not run out.
  pub acquire_refused :
      (e : TaskError)
      → (acquire r s id owner dur checked now stamp).0 ≡ err e
      → ((acquire r s id owner dur checked now stamp).1 ≡ r)
        × ((acquire r s id owner dur checked now stamp).2 ≡ s)
        × (((lookup id r.tasks ≡ none) × (e ≡ task_not_found))
            ⊎ ((t : Task) × (lookup id r.tasks ≡ some t)
                × (t.status ≡ owned)
                × (¬ IsLapsed t checked)
                × (e ≡ task_not_available)))
  unfolding acquire
  acquire_refused e h = elim (Option-cases (lookup id r.tasks)) [
    | inl missing ↦ (ground arith, ground arith, inl (missing, ground arith))
    | inr (t, found) ↦ (
      ground (arith, lookup-insert_self id (freed t) r.tasks),
      ground (arith, lookup-insert_self id (freed t) r.tasks),
      inr (
        t,
        found,
        ground (arith, lookup-insert_self id (freed t) r.tasks),
        (λ lapsed. ground (arith, lookup-insert_self id (freed t) r.tasks)),
        ground (arith, lookup-insert_self id (freed t) r.tasks),
      ),
    )
  ]

  -- A granted Acquire found the task free or under a lapsed lease, and stores it owned by the caller
  -- until the end of a new lease that is not empty; nothing else of the task but its UpdatedAt changes.
  pub acquire_granted :
      (a : AcquireResult)
      → (acquire r s id owner dur checked now stamp).0 ≡ ok a
      → (t : Task) × (lookup id r.tasks ≡ some t)
        × ((t.status ≢ owned) ⊎ IsLapsed t checked)
        × (a.task ≡ granted_to owner a.lease_until stamp t)
        × (lookup id (acquire r s id owner dur checked now stamp).1.tasks ≡ some a.task)
        × (now < a.lease_until)
  unfolding acquire
  acquire_granted a h = elim (Option-cases (lookup id r.tasks)) [
    | inl missing ↦ absurd (ground arith)
    | inr (t, found) ↦
        let back = lookup-insert_self id (freed t) r.tasks in
        let grant =
          lookup-insert_self id (granted_to owner (now + lease_for dur) stamp t) r.tasks in
        let regrant =
          lookup-insert_self id (granted_to owner (now + lease_for dur) stamp (freed t))
            (reclaim r id t).tasks in
        (
          t,
          found,
          ground (arith, back, status-cases t.status),
          ground (arith, back),
          ground (arith, back, grant, regrant),
          ground (arith, back, 0-lt-lease_for dur),
        )
  ]

module _ {S : Type 0} (r : Registry S) (s : S) (id owner : String) (now : ℕ) where
  -- Release by the owner makes the task available and tells the callbacks; by anyone else, or for a
  -- missing task, it changes nothing. No other task is touched.
  pub release_lem :
      (j : String)
      → let x = release r s id owner now in
        ((x.0 ≡ ok tt)
          → (t : Task) × (lookup id r.tasks ≡ some t)
            × (t.owner_id ≡ owner)
            × (lookup id x.1.tasks
                ≡ some (record t {
                  status = available;
                  owner_id = "";
                  lease_until = 0;
                  updated_at = now;
                }))
            × (x.2 ≡ fire_available (available_of id t "released") r.avail_handlers s))
        × ((e : TaskError)
            → x.0 ≡ err e
            → (x.1 ≡ r)
              × (x.2 ≡ s)
              × (((lookup id r.tasks ≡ none) × (e ≡ task_not_found))
                  ⊎ ((t : Task) × (lookup id r.tasks ≡ some t)
                      × (t.owner_id ≢ owner)
                      × (e ≡ not_owner))))
        × (id ≢ j → lookup j x.1.tasks ≡ lookup j r.tasks)
  unfolding release
  release_lem j = elim (Option-cases (lookup id r.tasks)) [
    | inl missing ↦ (
      λ h. absurd (ground arith),
      (λ e h. (ground arith, ground arith, inl (missing, ground arith))),
      λ ne. ground arith,
    )
    | inr (t, found) ↦
        let t' = record (freed t) { updated_at = now } in
        let who = str_eq_iff t.owner_id owner in
        (
          (λ h. (
            t,
            found,
            ground (arith, who),
            ground (arith, lookup-insert_self id t' r.tasks),
            ground arith,
          )),
          (λ e h. (
            ground arith,
            ground arith,
            inr (t, found, (λ same. ground (arith, who)), ground arith),
          )),
          λ ne. ground (arith, lookup-insert id j t' r.tasks, str_eq_of_ne id j ne),
        )
  ]

module _ {S : Type 0} (r : Registry S) (s : S) (id owner : String) (dur : Duration)
    (checked now stamp : ℕ) where
  -- Under a lease that has not run out Acquire is refused, whoever asks.
  pub acquire_held :
      (t : Task)
      → lookup id r.tasks ≡ some t
      → t.status ≡ owned
      → checked ≤ t.lease_until
      → acquire r s id owner dur checked now stamp ≡ (err task_not_available, r, s)
  unfolding acquire
  acquire_held t found st live = ground arith

  pub lookup-acquire_ne :
      (j : String)
      → id ≢ j
      → lookup j (acquire r s id owner dur checked now stamp).1.tasks ≡ lookup j r.tasks
  unfolding acquire
  lookup-acquire_ne j ne = elim (Option-cases (lookup id r.tasks)) [
    | inl missing ↦ ground arith
    | inr (t, found) ↦
        let g = granted_to owner (now + lease_for dur) stamp t in
        let f = granted_to owner (now + lease_for dur) stamp (freed t) in
        ground (
          arith,
          lookup-insert id j g r.tasks,
          lookup-insert id j (freed t) r.tasks,
          lookup-insert_self id (freed t) r.tasks,
          lookup-insert id j f (reclaim r id t).tasks,
          str_eq_of_ne id j ne,
        )
  ]

  -- The callbacks hear of a lapsed lease, the old owner's loss first, and of nothing else.
  pub acquire_announces :
      (t : Task)
      → lookup id r.tasks ≡ some t
      → (t.status ≡ owned
          → IsLapsed t checked
          → (acquire r s id owner dur checked now stamp).2 ≡ announce_expired r id t s)
        × ((t.status ≢ owned) ⊎ (checked ≤ t.lease_until)
            → (acquire r s id owner dur checked now stamp).2 ≡ s)
  unfolding acquire
  acquire_announces t found = ((λ st lapsed. ground arith), (λ live. ground arith))

module _ {S : Type 0} (r : Registry S) (id owner : String) (now : ℕ) where
  -- Completion, too, is the owner's only.
  pub mark_completed_lem :
      (t : Task)
      → lookup id r.tasks ≡ some t
      → (t.owner_id ≡ owner
          → lookup id (mark_completed r id owner now).1.tasks
            ≡ some
                (record t { status = completed; owner_id = ""; lease_until = 0; updated_at = now }))
        × (t.owner_id ≢ owner → mark_completed r id owner now ≡ (err not_owner, r))
  unfolding mark_completed
  mark_completed_lem t found =
      let t' = record (freed t) { status = completed; updated_at = now } in
      (
        (λ who. ground (arith, str_eq_iff t.owner_id owner, lookup-insert_self id t' r.tasks)),
        (λ who. ground (arith, str_eq_iff t.owner_id owner)),
      )

  pub lookup-mark_completed_ne :
      (j : String) → id ≢ j → lookup j (mark_completed r id owner now).1.tasks ≡ lookup j r.tasks
  unfolding mark_completed
  lookup-mark_completed_ne j ne = elim (Option-cases (lookup id r.tasks)) [
    | inl missing ↦ ground arith
    | inr (t, found) ↦ ground (
      arith,
      lookup-insert id j (record (freed t) { status = completed; updated_at = now }) r.tasks,
      str_eq_of_ne id j ne,
    )
  ]
