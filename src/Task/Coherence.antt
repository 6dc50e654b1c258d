-- ===== src/Task/Coherence.antt =====
-- The states that a registry can be in: status, owner and lease of each task agree.
use dwcs.Base.{
  ℕ, ◌<◌, String, Bool, some, List, [], ◌∷◌, ◌≡◌, refl, subst, inl, inr, arith, Slice, Bytes,
  Handler, Duration, Option-cases, Bool-cases, str_eq, str_eq_iff, if◌then◌else◌,
}
use dwcs.GoMap.{lookup, insert, map_values}
use dwcs.GoMap.Laws.{lookup-insert, lookup-map_values}
use dwcs.Task.{
  acquire_grant, acquire_check, Checked, refused, free, reclaimed, LostHandler, AvailableEvent,
  Status, available, owned, completed, Task, Registry, new_registry, freed, acquire, reclaim,
  release, mark_completed, register, release_all, evict_expired, free_if, is_owned_by, is_lapsed,
}
use dwcs.Task.Acquire.{0-lt-lease_for}
use dwcs.Task.Leases.{
  Call, registers, acquires, releases, releases_all, completes, evicts, step, run,
}

-- An owned task has a lease; any other has neither owner nor lease.
abbrev pub Agrees : Status → String → ℕ → Type 0
Agrees owned owner until = 0 < until
Agrees available owner until = (owner ≡ "") × (until ≡ 0)
Agrees completed owner until = (owner ≡ "") × (until ≡ 0)

-- Each task stands under its own id, too.
abbrev pub Fits : String → Task → Type 0
Fits k t = (t.id ≡ k) × Agrees t.status t.owner_id t.lease_until

pub record IsCoherent {S : Type 0} (r : Registry S) : Type 0 where
  pub at_key : (k : String) (t : Task) → lookup k r.tasks ≡ some t → Fits k t

Fits-free_if :
    (k : String) (p : Task → Bool) (stamp : String → ℕ) (t : Task)
    → Fits k t
    → Fits k (free_if p stamp t)
unfolding free_if
Fits-free_if k p stamp t f = elim (Bool-cases (p t)) [
  | inl e ↦ rw (e, free_if) (f.0, (refl, refl))
  | inr e ↦ rw (e, free_if) f
]

module _ {S : Type 0} where
  -- Storing a fitting task keeps the registry coherent.
  insert-IsCoherent :
      (r r' : Registry S) (id : String) (t : Task)
      → r'.tasks ≡ insert id t r.tasks
      → Fits id t
      → IsCoherent r
      → IsCoherent r'
  insert-IsCoherent r r' id t e f c = record {
    at_key = λ k u found. elim (Bool-cases (str_eq id k)) [
      | inl same ↦
          (let e' : u ≡ t = ground (arith, lookup-insert id k t r.tasks) in
            subst (λ j. Fits j u) ((str_eq_iff id k).0 same) (rw e' f))
      | inr other ↦ c.at_key k u (ground (arith, lookup-insert id k t r.tasks))
    ];
  }

  map-IsCoherent :
      (r r' : Registry S) (p : Task → Bool) (stamp : String → ℕ)
      → r'.tasks ≡ map_values (free_if p stamp) r.tasks
      → IsCoherent r
      → IsCoherent r'
  map-IsCoherent r r' p stamp e c = record {
    at_key = λ k u found. elim (Option-cases (lookup k r.tasks)) [
      | inl missing ↦ absurd (ground (arith, lookup-map_values k (free_if p stamp) r.tasks))
      | inr (t, at) ↦
          let e' : u ≡ free_if p stamp t =
            ground (arith, lookup-map_values k (free_if p stamp) r.tasks) in
          rw e' (Fits-free_if k p stamp t (c.at_key k t at))
    ];
  }

  register-IsCoherent :
      (r : Registry S) (s : S) (id : String) (tags : Slice String) (hint : Bytes) (now stamp : ℕ)
      → IsCoherent r
      → IsCoherent (register r s id tags hint now stamp).1
  unfolding register
  register-IsCoherent r s id tags hint now stamp c = elim (Option-cases (lookup id r.tasks)) [
    | inr (t, found) ↦ rw (found, register) c
    | inl missing ↦ rw (missing, register) (insert-IsCoherent r _ id _ refl (refl, (refl, refl)) c)
  ]

  grant-IsCoherent :
      (r : Registry S) (id by : String) (d : Duration) (now stamp : ℕ)
      → IsCoherent r
      → IsCoherent (acquire_grant r id by d now stamp).1
  unfolding acquire_grant
  grant-IsCoherent r id by d now stamp c = elim (Option-cases (lookup id r.tasks)) [
    | inl missing ↦ rw (missing, acquire_grant) c
    | inr (t, found) ↦
        rw (found, acquire_grant)
          (insert-IsCoherent r _ id _ refl
            ((c.at_key id t found).0, omega (arith, 0-lt-lease_for d)) c)
  ]

  found_of_reclaimed :
      (r : Registry S) (id : String) (checked : ℕ) (t : Task)
      → acquire_check r id checked ≡ reclaimed t
      → lookup id r.tasks ≡ some t
  unfolding acquire_check
  found_of_reclaimed r id checked t e = ground arith

  acquire-IsCoherent :
      (r : Registry S) (s : S) (id by : String) (d : Duration) (checked now stamp : ℕ)
      → IsCoherent r
      → IsCoherent (acquire r s id by d checked now stamp).1
  acquire-IsCoherent r s id by d checked now stamp c = split (acquire_check r id checked) refl
    where
      split :
          (x : Checked)
          → acquire_check r id checked ≡ x
          → IsCoherent (acquire r s id by d checked now stamp).1
      split (refused e) q = unfold acquire in rw (q, acquire) c
      split free q = unfold acquire in rw (q, acquire) (grant-IsCoherent r id by d now stamp c)
      split (reclaimed t) q =
          unfold acquire in
          rw (q, acquire)
            (grant-IsCoherent (reclaim r id t) id by d now stamp (
              insert-IsCoherent r (reclaim r id t) id (freed t) refl
                ((c.at_key id t (found_of_reclaimed r id checked t q)).0, (refl, refl)) c))

  release-IsCoherent :
      (r : Registry S) (s : S) (id by : String) (now : ℕ)
      → IsCoherent r
      → IsCoherent (release r s id by now).1
  unfolding release
  release-IsCoherent r s id by now c = elim (Option-cases (lookup id r.tasks)) [
    | inl missing ↦ rw (missing, release) c
    | inr (t, found) ↦ elim (Bool-cases (str_eq t.owner_id by)) [
      | inl mine ↦
          rw (found, release)
            (rw (mine, if◌then◌else◌)
              (insert-IsCoherent r _ id _ refl ((c.at_key id t found).0, (refl, refl)) c))
      | inr other ↦ rw (found, release) (rw (other, if◌then◌else◌) c)
    ]
  ]

  completed-IsCoherent :
      (r : Registry S) (id by : String) (now : ℕ)
      → IsCoherent r
      → IsCoherent (mark_completed r id by now).1
  unfolding mark_completed
  completed-IsCoherent r id by now c = elim (Option-cases (lookup id r.tasks)) [
    | inl missing ↦ rw (missing, mark_completed) c
    | inr (t, found) ↦ elim (Bool-cases (str_eq t.owner_id by)) [
      | inl mine ↦
          rw (found, mark_completed)
            (rw (mine, if◌then◌else◌)
              (insert-IsCoherent r _ id _ refl ((c.at_key id t found).0, (refl, refl)) c))
      | inr other ↦ rw (found, mark_completed) (rw (other, if◌then◌else◌) c)
    ]
  ]

  -- Every call keeps the registry coherent.
  pub step-IsCoherent :
      (r : Registry S) (s : S) (c : Call) → IsCoherent r → IsCoherent (step (r, s) c).0
  unfolding step release_all evict_expired
  step-IsCoherent r s (registers id tags hint now stamp) h =
      register-IsCoherent r s id tags hint now stamp h
  step-IsCoherent r s (acquires id by d checked now stamp) h =
      acquire-IsCoherent r s id by d checked now stamp h
  step-IsCoherent r s (releases id by now) h = release-IsCoherent r s id by now h
  step-IsCoherent r s (releases_all by stamp) h = map-IsCoherent r _ (is_owned_by by) stamp refl h
  step-IsCoherent r s (completes id by now) h = completed-IsCoherent r id by now h
  step-IsCoherent r s (evicts now stamp) h = map-IsCoherent r _ (is_lapsed now) stamp refl h

  pub run-IsCoherent :
      (r : Registry S) (s : S) (cs : List Call) → IsCoherent r → IsCoherent (run (r, s) cs).0
  unfolding run
  run-IsCoherent r s [] h = h
  run-IsCoherent r s (c ∷ cs) h =
      let (r', s') = step (r, s) c in run-IsCoherent r' s' cs (step-IsCoherent r s c h)

  pub new-IsCoherent :
      (lost : List (LostHandler S)) (avail : List (Handler AvailableEvent S))
      → IsCoherent (record new_registry { lost_handlers = lost; avail_handlers = avail })
  unfolding new_registry lookup
  new-IsCoherent lost avail = record { at_key = λ k t found. cc }

  -- After any history of calls on an empty registry, with any callbacks, each task stands under its
  -- own id; an owned one has a lease, and any other has neither owner nor lease.
  pub run-new-IsCoherent :
      (lost : List (LostHandler S)) (avail : List (Handler AvailableEvent S)) (s : S)
      (cs : List Call)
      → IsCoherent
          (run (record new_registry { lost_handlers = lost; avail_handlers = avail }, s) cs).0
  run-new-IsCoherent lost avail s cs = run-IsCoherent _ s cs (new-IsCoherent lost avail)
