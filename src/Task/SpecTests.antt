-- ===== src/Task/SpecTests.antt =====
-- The theorems on the abstract view of the registry at concrete inputs.
use dwcs.Base.{ℕ, ◌<◌, String, none, List, [], ◌∷◌, ◌≡◌, sym, ap, ◌∙◌, arith, ok, pos, str_eq}
use dwcs.Task.{Registry, AcquireResult, acquire, new_registry}
use dwcs.Task.Leases.{Call, registers, acquires, run}
use dwcs.Task.Spec.{Slot, unknown, idle, finished, held, slots, spec_run, run-new_refines}
use dwcs.Task.Progress.{run-new_acquirable}

abbrev pub taken : List Call
taken = registers "t" none none 1 1 ∷ acquires "t" "ann" (pos 10) 2 3 4 ∷ []

abbrev pub start : Registry ℕ × ℕ
start = (record new_registry { lost_handlers = []; avail_handlers = [] }, 0)

run-new_refines_example : slots (run start taken).0 ≡ spec_run (λ k. unknown) taken
run-new_refines_example = run-new_refines [] [] start.1 taken

abbrev until_of : Slot → ℕ
until_of unknown = 0
until_of idle = 0
until_of finished = 0
until_of (held owner until) = until

lease_over :
    (owner : String) (until : ℕ) → slots (run start taken).0 "t" ≡ held owner until → until < 100
unfolding spec_run str_eq dwcs.Task.lease_for
lease_over owner until is =
    let same = ap (λ m. m "t") (run-new_refines [] [] start.1 taken) in
    let at : until ≡ 13 = sym (ap until_of is) ∙ ap until_of same in omega (arith, at)

run-new_acquirable_example :
    (a : AcquireResult) × ((acquire
        (run start taken).0
        (run start taken).1
        "t"
        "bob"
        (pos 5)
        100
        101
        102).0
      ≡ ok a)
    × (a.task.owner_id ≡ "bob")
run-new_acquirable_example =
    run-new_acquirable [] [] start.1 [] (acquires "t" "ann" (pos 10) 2 3 4 ∷ []) "t" "bob" none none
      (pos 5) 1 1 100 101 102 lease_over
