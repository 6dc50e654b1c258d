-- ===== src/Task/Announced.antt =====
-- The callbacks of ReleaseAll and evictExpired as one list, in the order in which they run.
use dwcs.Base.{
  String, List, [], ◌∷◌, ◌++◌, map, ◌≡◌, refl, sym, ap, ◌∙◌, append_copy, Handler, recovered,
}
use dwcs.Task.{
  Task, Registry, LostEvent, AvailableEvent, LostHandler, available_of, lost_of, fire_available,
  fire_lost, announce_disconnected, announce_evicted,
}

module _ {S : Type 0} where
  -- Callbacks one after the other.
  abbrev pub runs : List (S → S) → S → S
  runs [] s = s
  runs (f ∷ fs) s = runs fs (f s)

  runs-append : (fs gs : List (S → S)) (s : S) → runs (fs ++ gs) s ≡ runs gs (runs fs s)
  runs-append [] gs s = refl
  runs-append (f ∷ fs) gs s = runs-append fs gs (f s)

  -- The callbacks that hear that the task can be had, each kept from panicking.
  abbrev pub offers : Registry S → Task → String → List (S → S)
  offers r t why =
      map
        (λ (h : Handler AvailableEvent S) (x : S). recovered (
          h
            (record {
              task_id = t.id;
              tags = append_copy t.tags;
              hint = append_copy t.hint;
              reason = why;
            })
            x))
        r.avail_handlers

  -- The callbacks that hear that the owner has lost the task.
  abbrev pub losses : Registry S → String → Task → String → List (S → S)
  losses r owner t why =
      map
        (λ (h : LostHandler S) (x : S).
          h (record { task_id = t.id; owner_id = owner; reason = why }) x)
        r.lost_handlers

  -- The callbacks for each task in turn.
  abbrev pub for_each : (Task → List (S → S)) → List Task → List (S → S)
  for_each f [] = []
  for_each f (t ∷ ts) = f t ++ for_each f ts

  fire_available-runs :
      (evt : AvailableEvent) (hs : List (Handler AvailableEvent S)) (s : S)
      → fire_available evt hs s ≡ runs (map (λ h x. recovered (h evt x)) hs) s
  unfolding fire_available
  fire_available-runs evt [] s = refl
  fire_available-runs evt (h ∷ hs) s = fire_available-runs evt hs (recovered (h evt s))

  fire_lost-runs :
      (evt : LostEvent) (hs : List (LostHandler S)) (s : S)
      → fire_lost evt hs s ≡ runs (map (λ h x. h evt x) hs) s
  unfolding fire_lost
  fire_lost-runs evt [] s = refl
  fire_lost-runs evt (h ∷ hs) s = fire_lost-runs evt hs (h evt s)

  -- ReleaseAll offers each task first, and then tells that its owner lost it.
  pub announce_disconnected-runs :
      (r : Registry S) (by : String) (ts : List Task) (s : S)
      → announce_disconnected r by ts s
        ≡ runs (for_each (λ t. offers r t "disconnected" ++ losses r by t "disconnected") ts) s
  unfolding announce_disconnected available_of
  announce_disconnected-runs r by [] s = refl
  announce_disconnected-runs r by (t ∷ ts) s =
      let offer = available_of t.id t "disconnected" in
      let loss : LostEvent = record { task_id = t.id; owner_id = by; reason = "disconnected" } in
      let these = offers r t "disconnected" ++ losses r by t "disconnected" in
      let rest = for_each (λ x. offers r x "disconnected" ++ losses r by x "disconnected") ts in
      let heard = fire_available offer r.avail_handlers s in
      let e : fire_lost loss r.lost_handlers heard ≡ runs these s =
        fire_lost-runs loss r.lost_handlers heard
        ∙ ap (runs (losses r by t "disconnected")) (fire_available-runs offer r.avail_handlers s)
        ∙ sym (runs-append (offers r t "disconnected") (losses r by t "disconnected") s) in
      announce_disconnected-runs r by ts _ ∙ ap (runs rest) e ∙ sym (runs-append these rest s)

  -- evictExpired tells of the loss first.
  pub announce_evicted-runs :
      (r : Registry S) (ts : List Task) (s : S)
      → announce_evicted r ts s
        ≡ runs
            (for_each (λ t. losses r t.owner_id t "lease_expired" ++ offers r t "lease_expired") ts)
            s
  unfolding announce_evicted available_of
  announce_evicted-runs r [] s = refl
  announce_evicted-runs r (t ∷ ts) s =
      let offer = available_of t.id t "lease_expired" in
      let loss = lost_of t "lease_expired" in
      let these = losses r t.owner_id t "lease_expired" ++ offers r t "lease_expired" in
      let rest =
        for_each (λ x. losses r x.owner_id x "lease_expired" ++ offers r x "lease_expired") ts in
      let heard = fire_lost loss r.lost_handlers s in
      let e : fire_available offer r.avail_handlers heard ≡ runs these s =
        fire_available-runs offer r.avail_handlers heard
        ∙ ap (runs (offers r t "lease_expired")) (fire_lost-runs loss r.lost_handlers s)
        ∙ sym
            (runs-append (losses r t.owner_id t "lease_expired") (offers r t "lease_expired") s) in
      announce_evicted-runs r ts _ ∙ ap (runs rest) e ∙ sym (runs-append these rest s)
