-- ===== src/Task/Disconnect.antt =====
-- ReleaseAll and evictExpired: the loops over the whole registry.
use dwcs.Base.{
  ℕ, ◌<◌, String, Bool, true, false, ◌&&◌, some, List, [], ◌∷◌, ◌++◌, map, ◌≡◌, refl, ap, fun_ext,
  ◌⊎◌, inl, inr, arith, Slice, elems, str_eq, str_eq_iff, ltb, keep,
}
use dwcs.GoMap.{GoMap, lookup, map_values, values}
use dwcs.GoMap.Laws.{lookup-map_values}
use dwcs.Task.{
  available, owned, completed, Task, freed, is_expired, Registry, release_all, evict_expired,
  free_if, is_owned_by, is_lapsed, lease_watcher, Wake, ticks, done, list_available, is_available,
}
use dwcs.Task.Announced.{
  runs, for_each, offers, losses, announce_disconnected-runs, announce_evicted-runs,
}
use dwcs.Tags.{passes_filter-to_set, wanted}

-- What a loop freed fails its own test afterwards.
none_left :
    (p : Task → Bool) (stamp : String → ℕ) (m : GoMap Task)
    → ((t : Task) → p (free_if p stamp t) ≡ false)
    → keep p (values (map_values (free_if p stamp) m)) ≡ []
unfolding keep map_values
none_left p stamp [] h = refl
none_left p stamp ((k, t) ∷ m) h = rw (h t) (none_left p stamp m h)

free_if-is_owned_by :
    (by : String) (stamp : String → ℕ) (t : Task)
    → is_owned_by by (free_if (is_owned_by by) stamp t) ≡ false
unfolding free_if is_owned_by
free_if-is_owned_by by stamp t = ground arith

free_if-is_lapsed :
    (now : ℕ) (stamp : String → ℕ) (t : Task)
    → is_lapsed now (free_if (is_lapsed now) stamp t) ≡ false
unfolding free_if is_lapsed
free_if-is_lapsed now stamp t = ground arith

-- The session owns the task.
abbrev pub IsOf : String → Task → Type 0
IsOf by t = (t.status ≡ owned) × (t.owner_id ≡ by)

-- The task is owned, under a lease with an end that has passed.
abbrev pub IsOver : ℕ → Task → Type 0
IsOver now t = (t.status ≡ owned) × (0 < t.lease_until) × (t.lease_until < now)

-- IsOf as a test.
abbrev pub is_of : String → Task → Bool
is_of by t = elim t.status [ available ↦ false | owned ↦ str_eq t.owner_id by | completed ↦ false ]

-- IsOver as a test.
abbrev pub is_over : ℕ → Task → Bool
is_over now t = elim t.status [
  | available ↦ false
  | owned ↦ ltb 0 t.lease_until && ltb t.lease_until now
  | completed ↦ false
]

is_owned_by-cases :
    (by : String) (t : Task)
    → ((is_owned_by by t ≡ true) × IsOf by t) ⊎ ((is_owned_by by t ≡ false) × ¬ IsOf by t)
unfolding is_owned_by
is_owned_by-cases by t = ground (arith, str_eq_iff t.owner_id by)

is_lapsed-cases :
    (now : ℕ) (t : Task)
    → ((is_lapsed now t ≡ true) × IsOver now t) ⊎ ((is_lapsed now t ≡ false) × ¬ IsOver now t)
unfolding is_lapsed is_expired
is_lapsed-cases now t = ground arith

is_owned_by-eq-is_of : (by : String) → is_owned_by by ≡ is_of by
unfolding is_owned_by
is_owned_by-eq-is_of by = fun_ext λ (t : Task). ground arith

is_lapsed-eq-is_over : (now : ℕ) → is_lapsed now ≡ is_over now
unfolding is_lapsed is_expired
is_lapsed-eq-is_over now = fun_ext λ (t : Task). ground arith

-- The task after it was taken from its owner.
abbrev pub given_back : (String → ℕ) → Task → Task
given_back stamp t = record t {
  status = available;
  owner_id = "";
  lease_until = 0;
  updated_at = stamp t.id;
}

-- What the task with id `k` is after a loop that frees the tasks that pass `p`.
lookup-freed :
    (p : Task → Bool) (Q : Task → Type 0) (stamp : String → ℕ) (m : GoMap Task) (k : String)
    (t : Task)
    → (((p t ≡ true) × Q t) ⊎ ((p t ≡ false) × ¬ Q t))
    → lookup k m ≡ some t
    → (Q t × (lookup k (map_values (free_if p stamp) m) ≡ some (given_back stamp t)))
      ⊎ ((¬ Q t) × (lookup k (map_values (free_if p stamp) m) ≡ some t))
unfolding free_if freed
lookup-freed p Q stamp m k t (inl (e, q)) found =
    inl (q, ground (arith, lookup-map_values k (free_if p stamp) m))
lookup-freed p Q stamp m k t (inr (e, q)) found =
    inr (q, ground (arith, lookup-map_values k (free_if p stamp) m))

module _ {S : Type 0} (r : Registry S) (s : S) where
  -- ReleaseAll frees exactly the tasks that are owned and have the session as their owner: it returns
  -- their ids, in the order of the loop; none is left; each of them is available again, without owner
  -- and lease; each other task is as before; and for each of them in turn the callbacks run, first
  -- those that hear that it is available, then those that hear that its owner has lost it.
  pub release_all_lem :
      (by : String) (stamp : String → ℕ) (k : String) (t : Task)
      → lookup k r.tasks ≡ some t
      → let (ids, r', s') = release_all r s by stamp in
        let its = keep (is_of by) (values r.tasks) in
        (ids ≡ map (λ x. x.id) its)
        × (keep (is_of by) (values r'.tasks) ≡ [])
        × ((IsOf by t × (lookup k r'.tasks ≡ some (given_back stamp t)))
            ⊎ ((¬ IsOf by t) × (lookup k r'.tasks ≡ some t)))
        × (s'
            ≡ runs
                (for_each (λ x. offers r x "disconnected" ++ losses r by x "disconnected") its)
                s)
  unfolding release_all
  release_all_lem by stamp k t found = (
    rw (is_owned_by-eq-is_of by),
    rw (← is_owned_by-eq-is_of by)
        (none_left (is_owned_by by) stamp r.tasks (free_if-is_owned_by by stamp)),
    lookup-freed (is_owned_by by) (IsOf by) stamp r.tasks k t (is_owned_by-cases by t) found,
    rw (is_owned_by-eq-is_of by)
        (announce_disconnected-runs r by (keep (is_of by) (values r.tasks)) s),
  )

  -- evictExpired frees exactly the tasks that are owned under a lease with an end that has passed: none
  -- is left; each of them is available again, without owner and lease; each other task is as before;
  -- and for each of them in turn the callbacks run, first those that hear that its owner has lost it,
  -- then those that hear that it is available.
  pub evict_expired_lem :
      (now : ℕ) (stamp : String → ℕ) (k : String) (t : Task)
      → lookup k r.tasks ≡ some t
      → let (r', s') = evict_expired r s now stamp in
        let its = keep (is_over now) (values r.tasks) in
        (keep (is_over now) (values r'.tasks) ≡ [])
        × ((IsOver now t × (lookup k r'.tasks ≡ some (given_back stamp t)))
            ⊎ ((¬ IsOver now t) × (lookup k r'.tasks ≡ some t)))
        × (s'
            ≡ runs
                (for_each
                  (λ x. losses r x.owner_id x "lease_expired" ++ offers r x "lease_expired")
                  its)
                s)
  unfolding evict_expired
  evict_expired_lem now stamp k t found = (
    rw (← is_lapsed-eq-is_over now)
        (none_left (is_lapsed now) stamp r.tasks (free_if-is_lapsed now stamp)),
    lookup-freed (is_lapsed now) (IsOver now) stamp r.tasks k t (is_lapsed-cases now t) found,
    rw (is_lapsed-eq-is_over now) (announce_evicted-runs r (keep (is_over now) (values r.tasks)) s),
  )

module _ {S : Type 0} where
  -- Once `done` is closed the watcher evicts no more.
  pub lease_watcher_done :
      (r : Registry S) (s : S) (before after : List Wake)
      → lease_watcher r s (before ++ done ∷ after) ≡ lease_watcher r s before
  unfolding lease_watcher
  lease_watcher_done r s [] after = refl
  lease_watcher_done r s (done ∷ ws) after = refl
  lease_watcher_done r s (ticks now stamp ∷ ws) after =
      let (r', s') = evict_expired r s now stamp in lease_watcher_done r' s' ws after

  -- ListAvailable returns the available tasks that share a tag with the filter, all available ones
  -- if the filter is empty or nil.
  pub list_available-eq-keep :
      (r : Registry S) (filter_tags : Slice String)
      → list_available r filter_tags
        ≡ keep (λ t. is_available t.status && wanted (elems filter_tags) t.tags) (values r.tasks)
  unfolding list_available
  list_available-eq-keep r filter_tags =
      ap (λ p. keep p (values r.tasks))
        (fun_ext λ (t : Task).
          ap (λ b. is_available t.status && b) (passes_filter-to_set t.tags filter_tags))
