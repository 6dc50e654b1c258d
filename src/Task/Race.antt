-- ===== src/Task/Race.antt =====
-- Between the two critical sections of Acquire no lock is held while the callbacks announce the task.
use dwcs.Base.{ℕ, ◌+◌, ◌<◌, String, some, ◌≡◌, refl, arith, ok, Duration}
use dwcs.GoMap.{lookup, insert}
use dwcs.GoMap.Laws.{lookup-insert_self}
use dwcs.Task.{
  owned, Task, AcquireResult, Registry, freed, lease_for, granted_to, acquire, acquire_check,
  acquire_grant, reclaim, reclaimed,
}
use dwcs.Task.Acquire.{0-lt-lease_for, IsLapsed}

module _ {S : Type 0} (r : Registry S) (s : S) (id a b : String) (d e : Duration)
    (checked now stamp c n u : ℕ) where
  -- Whenever Acquire by `a` finds a lapsed lease, an Acquire by `b` that comes between its critical
  -- sections is granted, and then so is the one by `a`: both callers are told that the task is
  -- theirs, and `b` has lost it to `a` under a lease that is not over when it is granted.
  pub acquire_race :
      (t : Task)
      → lookup id r.tasks ≡ some t
      → t.status ≡ owned
      → IsLapsed t checked
      → (acquire_check r id checked ≡ reclaimed t)
        × (let (res_b, r₂, _) = acquire (reclaim r id t) s id b e c n u in
            let (res_a, r₃) = acquire_grant r₂ id a d now stamp in
            (x : AcquireResult) × (y : AcquireResult) × (res_b ≡ ok x)
            × (x.task.owner_id ≡ b)
            × (n < x.lease_until)
            × (res_a ≡ ok y)
            × (y.task.owner_id ≡ a)
            × (lookup id r₃.tasks ≡ some y.task))
  unfolding acquire acquire_check acquire_grant reclaim
  acquire_race t found st lapsed =
      let f = freed t in
      let g = granted_to b (n + lease_for e) u f in
      let h = granted_to a (now + lease_for d) stamp g in
      let back = lookup-insert_self id f r.tasks in
      let grant = lookup-insert_self id g (reclaim r id t).tasks in
      let regrant = lookup-insert_self id h (insert id g (reclaim r id t).tasks) in
      (
        ground arith,
        (
          record { task = g; lease_until = n + lease_for e },
          record { task = h; lease_until = now + lease_for d },
          ground (arith, back),
          refl,
          omega (arith, 0-lt-lease_for e),
          ground (arith, back, grant),
          refl,
          ground (arith, back, grant, regrant),
        ),
      )
