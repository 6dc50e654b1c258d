-- ===== src/Task/Progress.antt =====
-- What a registered task comes to: it stays known, and can be acquired again and again.
use dwcs.Base.{
  ℕ, ◌<◌, String, Bool, true, false, List, [], ◌∷◌, ◌++◌, ◌≡◌, refl, ap, ◌∙◌, inl, inr, arith,
  Result, ok, err, Slice, Bytes, Handler, Duration, str_eq_iff, str_eq_refl,
}
use dwcs.Task.{
  TaskError, AcquireResult, Registry, LostHandler, AvailableEvent, new_registry, acquire,
  granted_to,
}
use dwcs.Task.Acquire.{acquire_refused, acquire_granted}
use dwcs.Task.Leases.{Call, registers, acquires, releases, releases_all, completes, evicts, run}
use dwcs.Task.Coherence.{IsCoherent, new-IsCoherent, run-IsCoherent}
use dwcs.Task.Spec.{
  Slot, unknown, idle, finished, held, Slots, spec_step, spec_run, slots, enter, run-new_refines,
}

abbrev pub is_known : Slot → Bool
is_known unknown = false
is_known idle = true
is_known finished = true
is_known (held owner until) = true

step-known :
    (m : Slots) (c : Call) (id : String)
    → is_known (m id) ≡ true
    → is_known (spec_step m c id) ≡ true
step-known m (registers j tags hint now stamp) id known = grind (arith, str_eq_iff j id)
step-known m (acquires j by dur checked now stamp) id known = grind (arith, str_eq_iff j id)
step-known m (releases j by now) id known = grind (arith, str_eq_iff j id)
step-known m (releases_all by stamp) id known = ground arith
step-known m (completes j by now) id known = grind (arith, str_eq_iff j id)
step-known m (evicts now stamp) id known = ground arith

run-known :
    (m : Slots) (cs : List Call) (id : String)
    → is_known (m id) ≡ true
    → is_known (spec_run m cs id) ≡ true
unfolding spec_run
run-known m [] id known = known
run-known m (c ∷ cs) id known = run-known (spec_step m c) cs id (step-known m c id known)

enter-known : (x : Slot) → is_known (enter x) ≡ true
enter-known unknown = refl
enter-known idle = refl
enter-known finished = refl
enter-known (held owner until) = refl

spec_run-append :
    (m : Slots) (xs ys : List Call) → spec_run m (xs ++ ys) ≡ spec_run (spec_run m xs) ys
unfolding spec_run
spec_run-append m [] ys = refl
spec_run-append m (x ∷ xs) ys = spec_run-append (spec_step m x) xs ys

registered-known :
    (m : Slots) (xs ys : List Call) (id : String) (tags : Slice String) (hint : Bytes) (n u : ℕ)
    → is_known (spec_run m (xs ++ registers id tags hint n u ∷ ys) id) ≡ true
unfolding spec_run
registered-known m xs ys id tags hint n u =
    let m₁ = spec_run m xs in
    let now_known : is_known (spec_step m₁ (registers id tags hint n u) id) ≡ true =
      ground (arith, str_eq_refl id, enter-known (m₁ id)) in
    rw (spec_run-append m xs (registers id tags hint n u ∷ ys))
      (run-known (spec_step m₁ (registers id tags hint n u)) ys id now_known)

module _ {S : Type 0} where
  -- An empty registry with these callbacks.
  abbrev pub empty : List (LostHandler S) → List (Handler AvailableEvent S) → Registry S
  empty lost avail = record new_registry { lost_handlers = lost; avail_handlers = avail }

  -- A known task that nobody holds by a lease that is not over is granted to whoever asks.
  known-acquired :
      (r : Registry S) (s : S) (id by : String) (d : Duration) (checked now stamp : ℕ)
      → IsCoherent r
      → is_known (slots r id) ≡ true
      → ((owner : String) (until : ℕ) → slots r id ≡ held owner until → until < checked)
      → (a : AcquireResult) × ((acquire r s id by d checked now stamp).0 ≡ ok a)
        × (a.task.owner_id ≡ by)
  known-acquired r s id by d checked now stamp h known over =
      split (acquire r s id by d checked now stamp).0 refl
    where
      split :
          (x : Result TaskError AcquireResult)
          → (acquire r s id by d checked now stamp).0 ≡ x
          → (a : AcquireResult) × ((acquire r s id by d checked now stamp).0 ≡ ok a)
            × (a.task.owner_id ≡ by)
      split (ok a) q =
          let (t, found, was, is, stored, late) =
            acquire_granted r s id by d checked now stamp a q in
          (a, q, unfold granted_to in ground (arith, is))
      split (err e) q = elim ((acquire_refused r s id by d checked now stamp e q).2) [
        | inl (missing, w) ↦ absurd (ground (arith, missing, known))
        | inr (t, found, is_owned, live, w) ↦
            absurd (live (ground (arith, h.at_key id t found, over t.owner_id t.lease_until)))
      ]

  -- No task is lost or stuck: in any history of calls from an empty registry, with any callbacks, once
  -- a task was registered whoever asks for it is granted it, if nobody holds it, or if the lease by
  -- which it is held is over when Acquire makes its test.
  pub run-new_acquirable :
      (lost : List (LostHandler S)) (avail : List (Handler AvailableEvent S)) (s : S)
      (before after : List Call) (id by : String) (tags : Slice String) (hint : Bytes)
      (d : Duration) (n u checked now stamp : ℕ)
      → ((owner : String) (until : ℕ)
          → slots (run (empty lost avail, s) (before ++ registers id tags hint n u ∷ after)).0 id
            ≡ held owner until
          → until < checked)
      → let (r, s') = run (empty lost avail, s) (before ++ registers id tags hint n u ∷ after) in
        (a : AcquireResult) × ((acquire r s' id by d checked now stamp).0 ≡ ok a)
        × (a.task.owner_id ≡ by)
  run-new_acquirable lost avail s before after id by tags hint d n u checked now stamp over =
      let cs = before ++ registers id tags hint n u ∷ after in
      known-acquired _ _ id by d checked now stamp
        (run-IsCoherent (empty lost avail) s cs (new-IsCoherent lost avail))
        (ap (λ (m : Slots). is_known (m id)) (run-new_refines lost avail s cs)
          ∙ registered-known (λ k. unknown) before after id tags hint n u)
        over
