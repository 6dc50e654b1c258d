-- ===== src/Task/Spec.antt =====
-- What the registry promises to calls that come one after the other, as a function from ids to slots, and
-- the registry as its implementation.
use dwcs.Base.{
  ℕ, ◌+◌, String, Option, none, some, List, [], ◌∷◌, ◌≡◌, ◌≢◌, refl, sym, ap, ◌∙◌, fun_ext, inl,
  inr, arith, Slice, Bytes, append_copy, Handler, Duration, Option-cases, Bool-cases, str_eq,
  str_eq_iff, str_eq_of_ne, if◌then◌else◌, ltb,
}
use dwcs.GoMap.{lookup, insert}
use dwcs.GoMap.Laws.{lookup-insert, lookup-insert_self, lookup-map_values}
use dwcs.Task.{
  Status, available, owned, completed, Task, Registry, LostHandler, AvailableEvent, new_registry,
  freed, free_if, is_owned_by, is_owned, is_expired, is_lapsed, lease_for, granted_to, register,
  acquire, acquire_check, acquire_grant, check_task, reclaim, release, mark_completed, release_all,
  evict_expired,
}
use dwcs.Task.Acquire.{lookup-acquire_ne}
use dwcs.Task.Leases.{
  Call, registers, acquires, releases, releases_all, completes, evicts, step, run,
}
use dwcs.Task.Coherence.{IsCoherent, step-IsCoherent, new-IsCoherent}

-- A task is unknown, free, finished, or held by an owner until a time.
pub data Slot : Type 0 where
  unknown idle finished : Slot
  held : String → ℕ → Slot

-- The slots of all ids.
abbrev pub Slots : Type 0
Slots = String → Slot

abbrev pub holder : Slot → String
holder (held owner until) = owner
holder unknown = ""
holder idle = ""
holder finished = ""

abbrev pub change : Slots → String → Slot → Slots
change m id x k = if str_eq id k then x else m k

-- A task that is there and held by nobody goes to the caller; a lease that is over counts for nothing.
abbrev pub take : String → ℕ → ℕ → Slot → Slot
take by checked until unknown = unknown
take by checked until idle = held by until
take by checked until finished = held by until
take by checked until (held owner end) = if ltb end checked then held by until else held owner end

-- What the holder gives up becomes `left`. The code tests the owner alone, so that a slot nobody holds
-- is given up by a caller with the empty id.
abbrev pub give_up : String → Slot → Slot → Slot
give_up by left unknown = unknown
give_up by left idle = if str_eq "" by then left else idle
give_up by left finished = if str_eq "" by then left else finished
give_up by left (held owner end) = if str_eq owner by then left else held owner end

abbrev pub drop : String → Slot → Slot
drop by unknown = unknown
drop by idle = idle
drop by finished = finished
drop by (held owner end) = if str_eq owner by then idle else held owner end

abbrev pub lapse : ℕ → Slot → Slot
lapse now unknown = unknown
lapse now idle = idle
lapse now finished = finished
lapse now (held owner end) = if ltb end now then idle else held owner end

abbrev pub enter : Slot → Slot
enter unknown = idle
enter idle = idle
enter finished = finished
enter (held owner end) = held owner end

-- The same calls, on slots.
abbrev pub spec_step : Slots → Call → Slots
spec_step m (registers id tags hint now stamp) = change m id (enter (m id))
spec_step m (acquires id by dur checked now stamp) =
    change m id (take by checked (now + lease_for dur) (m id))
spec_step m (releases id by now) = change m id (give_up by idle (m id))
spec_step m (releases_all by stamp) = λ k. drop by (m k)
spec_step m (completes id by now) = change m id (give_up by finished (m id))
spec_step m (evicts now stamp) = λ k. lapse now (m k)

unfoldable pub spec_run : Slots → List Call → Slots
spec_run m [] = m
spec_run m (c ∷ cs) = spec_run (spec_step m c) cs

abbrev pub slot_at : Status → String → ℕ → Slot
slot_at available owner until = idle
slot_at completed owner until = finished
slot_at owned owner until = held owner until

abbrev pub slot_of : Option Task → Slot
slot_of none = unknown
slot_of (some t) = slot_at t.status t.owner_id t.lease_until

-- Two views that agree but at one id.
change-eq :
    (m m' : Slots) (id : String) (x : Slot)
    → ((j : String) → id ≢ j → m' j ≡ m j)
    → m' id ≡ x
    → (k : String) → m' k ≡ change m id x k
change-eq m m' id x others here k = elim (Bool-cases (str_eq id k)) [
  | inl e ↦ ap m' (sym ((str_eq_iff id k).0 e)) ∙ here ∙ ground (arith, e)
  | inr e ↦ others k (λ p. ground (arith, e, str_eq_iff id k)) ∙ ground (arith, e)
]

module _ {S : Type 0} where
  -- What the registry shows of its tasks.
  abbrev pub slots : Registry S → Slots
  slots r k = slot_of (lookup k r.tasks)

  register-slots :
      (r : Registry S) (s : S) (id : String) (tags : Slice String) (hint : Bytes) (now stamp : ℕ)
      → let r' = (register r s id tags hint now stamp).1 in
        ((j : String) → id ≢ j → slots r' j ≡ slots r j) × (slots r' id ≡ enter (slots r id))
  unfolding register
  register-slots r s id tags hint now stamp =
      let t : Task = record {
        id = id;
        tags = append_copy tags;
        hint = append_copy hint;
        status = available;
        owner_id = "";
        lease_until = 0;
        created_at = now;
        updated_at = stamp;
      } in
      (
        λ j ne. ground (arith, lookup-insert id j t r.tasks, str_eq_of_ne id j ne),
        ground (arith, lookup-insert_self id t r.tasks),
      )

  acquire-slots :
      (r : Registry S) (s : S) (id by : String) (dur : Duration) (checked now stamp : ℕ)
      → IsCoherent r
      → slots (acquire r s id by dur checked now stamp).1 id
        ≡ take by checked (now + lease_for dur) (slots r id)
  unfolding acquire acquire_check acquire_grant check_task reclaim freed granted_to is_owned
      is_expired
  acquire-slots r s id by dur checked now stamp h = elim (Option-cases (lookup id r.tasks)) [
    | inl missing ↦ ground arith
    | inr (t, found) ↦
        let g = granted_to by (now + lease_for dur) stamp t in
        let f = granted_to by (now + lease_for dur) stamp (freed t) in
        ground (
          arith,
          h.at_key id t found,
          lookup-insert_self id g r.tasks,
          lookup-insert_self id (freed t) r.tasks,
          lookup-insert_self id f (insert id (freed t) r.tasks),
        )
  ]

  release-slots :
      (r : Registry S) (s : S) (id by : String) (now : ℕ)
      → IsCoherent r
      → let r' = (release r s id by now).1 in
        ((j : String) → id ≢ j → slots r' j ≡ slots r j)
        × (slots r' id ≡ give_up by idle (slots r id))
  unfolding release freed
  release-slots r s id by now h = elim (Option-cases (lookup id r.tasks)) [
    | inl missing ↦ (λ j ne. ground arith, ground arith)
    | inr (t, found) ↦
        let g = record (freed t) { updated_at = now } in
        (
          λ j ne. ground (arith, lookup-insert id j g r.tasks, str_eq_of_ne id j ne),
          ground (arith, h.at_key id t found, lookup-insert_self id g r.tasks),
        )
  ]

  completed-slots :
      (r : Registry S) (id by : String) (now : ℕ)
      → IsCoherent r
      → let r' = (mark_completed r id by now).1 in
        ((j : String) → id ≢ j → slots r' j ≡ slots r j)
        × (slots r' id ≡ give_up by finished (slots r id))
  unfolding mark_completed freed
  completed-slots r id by now h = elim (Option-cases (lookup id r.tasks)) [
    | inl missing ↦ (λ j ne. ground arith, ground arith)
    | inr (t, found) ↦
        let g = record (freed t) { status = completed; updated_at = now } in
        (
          λ j ne. ground (arith, lookup-insert id j g r.tasks, str_eq_of_ne id j ne),
          ground (arith, h.at_key id t found, lookup-insert_self id g r.tasks),
        )
  ]

  release_all-slots :
      (r : Registry S) (s : S) (by : String) (stamp : String → ℕ) (k : String)
      → slots (release_all r s by stamp).1 k ≡ drop by (slots r k)
  unfolding release_all free_if freed is_owned_by is_owned
  release_all-slots r s by stamp k = elim (Option-cases (lookup k r.tasks)) [
    | inl missing ↦ ground (arith, lookup-map_values k (free_if (is_owned_by by) stamp) r.tasks)
    | inr (t, found) ↦ ground (arith, lookup-map_values k (free_if (is_owned_by by) stamp) r.tasks)
  ]

  evict_expired-slots :
      (r : Registry S) (s : S) (now : ℕ) (stamp : String → ℕ) (k : String)
      → IsCoherent r
      → slots (evict_expired r s now stamp).0 k ≡ lapse now (slots r k)
  unfolding evict_expired free_if freed is_lapsed is_owned is_expired
  evict_expired-slots r s now stamp k h = elim (Option-cases (lookup k r.tasks)) [
    | inl missing ↦ ground (arith, lookup-map_values k (free_if (is_lapsed now) stamp) r.tasks)
    | inr (t, found) ↦
        ground
          (arith, h.at_key k t found, lookup-map_values k (free_if (is_lapsed now) stamp) r.tasks)
  ]

  step-slots :
      (r : Registry S) (s : S) (c : Call)
      → IsCoherent r
      → slots (step (r, s) c).0 ≡ spec_step (slots r) c
  unfolding step
  step-slots r s (registers id tags hint now stamp) h =
      let (others, here) = register-slots r s id tags hint now stamp in
      fun_ext (change-eq (slots r) (slots (register r s id tags hint now stamp).1) id _ others here)
  step-slots r s (acquires id by dur checked now stamp) h = fun_ext (
      change-eq (slots r) (slots (acquire r s id by dur checked now stamp).1) id _
        (λ j ne. ap slot_of (lookup-acquire_ne r s id by dur checked now stamp j ne))
        (acquire-slots r s id by dur checked now stamp h))
  step-slots r s (releases id by now) h =
      let (others, here) = release-slots r s id by now h in
      fun_ext (change-eq (slots r) (slots (release r s id by now).1) id _ others here)
  step-slots r s (releases_all by stamp) h = fun_ext (release_all-slots r s by stamp)
  step-slots r s (completes id by now) h =
      let (others, here) = completed-slots r id by now h in
      fun_ext (change-eq (slots r) (slots (mark_completed r id by now).1) id _ others here)
  step-slots r s (evicts now stamp) h = fun_ext (λ k. evict_expired-slots r s now stamp k h)

  pub run-slots :
      (r : Registry S) (s : S) (cs : List Call)
      → IsCoherent r
      → slots (run (r, s) cs).0 ≡ spec_run (slots r) cs
  unfolding run spec_run
  run-slots r s [] h = refl
  run-slots r s (c ∷ cs) h =
      let (r', s') = step (r, s) c in
      run-slots r' s' cs (step-IsCoherent r s c h)
      ∙ ap (λ (m : Slots). spec_run m cs) (step-slots r s c h)

  -- The registry, in any history of calls that come one after the other, from an empty registry and with
  -- any callbacks, shows at each moment just the slots that the same calls make on slots alone. No call
  -- comes between the two critical sections of an Acquire. On slots, a call on one id changes the slot of
  -- that id only; an Acquire takes a slot that is idle or finished, or held under a lease that is over,
  -- and leaves one that is held under a lease that is not over; a release or completion changes a
  -- held slot for its holder only, and an idle or finished one for a caller with the empty id only.
  pub run-new_refines :
      (lost : List (LostHandler S)) (avail : List (Handler AvailableEvent S)) (s : S)
      (cs : List Call)
      → slots (run (record new_registry { lost_handlers = lost; avail_handlers = avail }, s) cs).0
        ≡ spec_run (λ k. unknown) cs
  unfolding new_registry lookup
  run-new_refines lost avail s cs = run-slots _ s cs (new-IsCoherent lost avail)
