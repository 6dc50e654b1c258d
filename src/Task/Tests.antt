-- ===== src/Task/Tests.antt =====
-- The theorems on the registry at concrete inputs, and runs of the code.
use dwcs.Base.{
  ℕ, ◌+◌, ◌*◌, String, false, none, some, List, [], ◌∷◌, map, ◌≡◌, ◌≢◌, ◌⊎◌, refl, arith, ok, err,
  returned, Handler, recovered, pos, second, str_eq, str_eq_iff, keep, All,
}
use dwcs.GoMap.{lookup, insert, values}
use dwcs.Task.{
  task_not_available, owned, Task, AcquireResult, LostEvent, AvailableEvent, Registry, new_registry,
  acquire, acquire_check, reclaimed, refused, release_all, evict_expired, fire_available, fire_lost,
}
use dwcs.Task.Acquire.{acquire_refused}
use dwcs.Task.Leases.{Call, registers, acquires, releases, releases_all, evicts, Holds, run}
use dwcs.Task.Coherence.{IsCoherent, run-new-IsCoherent}
use dwcs.Task.Disconnect.{IsOver, is_of, given_back, release_all_lem, evict_expired_lem}
use dwcs.Task.Sections.{
  Section, alone, checks, grants, run_sections, Spares, run_sections-Holds, acquire_excludes,
}
use dwcs.Task.Race.{acquire_race}

-- Callbacks that count.
abbrev on_loss : LostEvent → ℕ → ℕ
on_loss evt n = n + 10

abbrev on_offer : Handler AvailableEvent ℕ
on_offer evt n = returned (n + 1)

-- Leased to `ann` until 50.
abbrev leased : Task
leased = record {
  id = "t";
  tags = some ("x" ∷ []);
  hint = none;
  status = owned;
  owner_id = "ann";
  lease_until = 50;
  created_at = 1;
  updated_at = 20;
}

abbrev busy : Registry ℕ
busy = record {
  tasks = ("t", leased) ∷ [];
  lost_handlers = on_loss ∷ [];
  avail_handlers = on_offer ∷ [];
  closed = false;
}

-- What `bob` gets at time 61, for 30 seconds.
abbrev bobs : Task
bobs = record leased { owner_id = "bob"; lease_until = 61 + 30 * second; updated_at = 62 }

abbrev bobs_result : AcquireResult
bobs_result = record { task = bobs; lease_until = 61 + 30 * second }

acquire_lapsed :
    acquire busy 0 "t" "bob" (pos 0) 60 61 62
    ≡ (ok bobs_result, record busy { tasks = ("t", bobs) ∷ [] }, 11)
unfolding acquire lookup insert str_eq recovered fire_available fire_lost
acquire_lapsed = refl

acquire_refused_example : (acquire busy 0 "t" "bob" (pos 0) 50 51 52).1 ≡ busy
unfolding acquire lookup str_eq
acquire_refused_example =
    (acquire_refused busy 0 "t" "bob" (pos 0) 50 51 52 task_not_available refl).0

-- Other sessions ask, and the watcher looks.
abbrev others : List Call
others =
    acquires "t" "eve" (pos 0) 70 71 72
    ∷ evicts 80 (λ k. 81)
    ∷ releases "t" "ann" 82
    ∷ releases_all "ann" (λ k. 83)
    ∷ []

ann_is_not_bob : ◌≢◌ {A = String} "ann" "bob"
unfolding str_eq
ann_is_not_bob = ground (arith, str_eq_iff "ann" "bob")

u_is_not_t : ◌≢◌ {A = String} "u" "t"
unfolding str_eq
u_is_not_t = ground (arith, str_eq_iff "u" "t")

-- The same, with an Acquire of another task that was under way.
abbrev meanwhile : List Section
meanwhile = grants "u" "eve" (pos 0) 63 64 ∷ checks "t" 65 ∷ map alone others

others_respect : All (Spares "t" "bob" (61 + 30 * second)) meanwhile
others_respect = (
  u_is_not_t,
  (omega arith, (omega arith, (omega arith, (ann_is_not_bob, (ann_is_not_bob, tt))))),
)

acquire_excludes_example :
    let (_, r₁, s₁) = acquire busy 0 "t" "bob" (pos 0) 60 61 62 in
    let (r₂, s₂) = run_sections (r₁, s₁) meanwhile in
    acquire r₂ s₂ "t" "eve" (pos 5) 90 91 92 ≡ (err task_not_available, r₂, s₂)
unfolding acquire lookup insert str_eq
acquire_excludes_example =
    acquire_excludes busy 0 "t" "bob" "eve" (pos 0) (pos 5) 60 61 62 90 91 92 bobs_result meanwhile
      refl others_respect (omega arith)

-- `bob` is refused; `eve`, whose test came before, gets another task; the watcher looks.
abbrev crossing : List Section
crossing = checks "t" 40 ∷ grants "u" "eve" (pos 0) 41 42 ∷ alone (evicts 50 (λ k. 51)) ∷ []

run_sections-Holds_example :
    Holds "t" "ann" 50 (run_sections (busy, 0) crossing).0
    × (acquire_check (run_sections (busy, 0) crossing).0 "t" 49 ≡ refused task_not_available)
unfolding lookup str_eq
run_sections-Holds_example =
    run_sections-Holds "t" "ann" 50 49 busy 0 crossing
      (omega arith, (u_is_not_t, (omega arith, tt))) (omega arith) (leased, refl, refl, refl, refl)

run-new-IsCoherent_example :
    IsCoherent {S = ℕ}
      (run
        (record new_registry { lost_handlers = on_loss ∷ []; avail_handlers = on_offer ∷ [] }, 0)
        (registers "t" none none 1 2 ∷ others)).0
run-new-IsCoherent_example =
    run-new-IsCoherent (on_loss ∷ []) (on_offer ∷ []) 0 (registers "t" none none 1 2 ∷ others)

release_all_lem_example :
    (release_all busy 0 "ann" (λ k. 30)).0
    ≡ map (λ t. t.id) (keep (is_of "ann") (values busy.tasks))
unfolding lookup str_eq
release_all_lem_example = (release_all_lem busy 0 "ann" (λ k. 30) "t" leased refl).0

evict_expired_lem_example :
    (IsOver 51 leased
      × (lookup "t" (evict_expired busy 0 51 (λ k. 52)).0.tasks
          ≡ some (given_back (λ k. 52) leased)))
    ⊎ ((¬ IsOver 51 leased)
        × (lookup "t" (evict_expired busy 0 51 (λ k. 52)).0.tasks ≡ some leased))
unfolding lookup str_eq
evict_expired_lem_example = (evict_expired_lem busy 0 51 (λ k. 52) "t" leased refl).1

acquire_race_example : acquire_check busy "t" 60 ≡ reclaimed leased
unfolding lookup str_eq
acquire_race_example =
    (acquire_race busy 0 "t" "ann" "bob" (pos 0) (pos 0) 60 63 64 60 61 62 leased refl refl
      (omega arith)).0
