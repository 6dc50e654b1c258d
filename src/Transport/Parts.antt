-- ===== src/Transport/Parts.antt =====
-- What a handler does to one part of the server keeps every owned task with a connected session.
use dwcs.Base.{ℕ, String, refl, Duration}
use dwcs.Session.{Session}
use dwcs.Task.{acquire, release}
use dwcs.Task.Owners.{acquire-IsOwnedBy, release-IsOwnedBy}
use dwcs.Task.Calm.{acquire_calm, release_calm, acquire-handlers, release-handlers}
use dwcs.Merge.{Submission, submit}
use dwcs.Merge.Callbacks.{submit_calm}
use dwcs.Backend.{Server}
use dwcs.Dispatcher.{through_session}
use dwcs.Transport.Owners.{IsHere, IsAttended, adjust-ne, next-IsAttended, moved-IsAttended}

module _ {P : String → Type 0} where
  pub acquire-IsAttended :
      (v : Server) (task id : String) (d : Duration) (c n u : ℕ)
      → IsHere v.outer id
      → IsAttended P v
      → let (res, r, o) = acquire v.registry v.outer task id d c n u in
        IsAttended P (record v { registry = r; outer = o })
  acquire-IsAttended v task id d c n u here a =
      next-IsAttended v _
        (acquire-IsOwnedBy (IsHere v.outer) v.registry a.owners v.outer task id d c n u here)
        (acquire-handlers v.registry v.outer task id d c n u) refl
        (λ j there.
          acquire_calm (λ o. IsHere o j) v.registry (a.calm j) v.outer task id d c n u there)
        a

  pub release-IsAttended :
      (v : Server) (task id : String) (n : ℕ)
      → IsAttended P v
      → let (res, r, o) = release v.registry v.outer task id n in
        IsAttended P (record v { registry = r; outer = o })
  release-IsAttended v task id n a =
      next-IsAttended v _ (release-IsOwnedBy (IsHere v.outer) v.registry a.owners v.outer task id n)
        (release-handlers v.registry v.outer task id n) refl
        (λ j there. release_calm (λ o. IsHere o j) v.registry (a.calm j) v.outer task id n there) a

  pub submit-IsAttended :
      (v : Server) (now : ℕ → ℕ) (sub : Submission)
      → IsAttended P v
      → let (res, w, o) = submit v.merge_fn v.world v.outer now sub in
        IsAttended P (record v { world = w; outer = o })
  submit-IsAttended v now sub a =
      next-IsAttended v _ a.owners (refl, refl)
        (submit_calm (λ o. Unit {0}) v.merge_fn v.world v.outer now sub (λ evt o u. tt) tt).0
        (λ j there.
          (submit_calm (λ o. IsHere o j) v.merge_fn v.world v.outer now sub (a.still j) there).1)
        a

  pub through_session-IsAttended :
      (v : Server) (id : String) (f : Session → Session)
      → IsAttended P v
      → IsAttended P (through_session id f v)
  unfolding through_session
  through_session-IsAttended v id f a =
      moved-IsAttended v _ refl refl (λ j here. adjust-ne id j f v.outer.manager.sessions here) a
