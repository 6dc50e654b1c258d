-- ===== src/Transport/Life.antt =====
-- The life of the server: at every moment owned tasks belong to connected sessions.
use dwcs.Base.{ℕ, String, Bool, Option, some, List, [], ◌∷◌, ◌≡◌, inl, inr, Duration, Option-cases}
use dwcs.GoMap.{lookup}
use dwcs.Session.{Session}
use dwcs.Protocol.{Codec}
use dwcs.Task.{Task, owned}
use dwcs.Merge.{MergeFunc}
use dwcs.Backend.{Server, new_server}
use dwcs.Transport.{
  Event, connects, reads, writes, disconnects, registers, evicts, projects, step, run,
}
use dwcs.Transport.Owners.{IsAttended, new_server-IsAttended}
use dwcs.Transport.Steps.{
  connect-IsAttended, read_line-IsAttended, write_one-IsAttended, disconnect-IsAttended,
  registers-IsAttended, evicts-IsAttended, projects-IsAttended,
}

module _ (c : Codec) where
  step-IsAttended :
      (v : Server) (e : Event) → IsAttended (λ id. ⊥) v → IsAttended (λ id. ⊥) (step c v e)
  unfolding step
  step-IsAttended v (connects id now) a = connect-IsAttended id now v a
  step-IsAttended v (reads id line clock) a = read_line-IsAttended c id line clock v a
  step-IsAttended v (writes id) a = write_one-IsAttended id v a
  step-IsAttended v (disconnects id stamp) a = disconnect-IsAttended id stamp v (λ j p. absurd p) a
  step-IsAttended v (registers id tags hint now stamp) a =
      registers-IsAttended id tags hint now stamp v a
  step-IsAttended v (evicts now stamp) a = evicts-IsAttended now stamp v a
  step-IsAttended v projects a = projects-IsAttended c v a

  pub run-IsAttended :
      (es : List Event) (v : Server) → IsAttended (λ id. ⊥) v → IsAttended (λ id. ⊥) (run c v es)
  unfolding run
  run-IsAttended [] v a = a
  run-IsAttended (e ∷ es) v a = run-IsAttended es (step c v e) (step-IsAttended v e a)

  -- From the server as main sets it up, whatever happens, in whatever order: connections that open
  -- and close, lines of any content on any of them, registrations, evictions and ticks. The owner
  -- of every owned task is a session that is connected.
  pub run-new_server_owners :
      (fn : Option MergeFunc) (metrics_on : Bool) (rate : Duration) (now : ℕ) (es : List Event)
      (k : String) (t : Task)
      → lookup k (run c (new_server c fn metrics_on rate now) es).registry.tasks ≡ some t
      → t.status ≡ owned
      → (s : Session) × (lookup t.owner_id
            (run c (new_server c fn metrics_on rate now) es).outer.manager.sessions
          ≡ some s)
  run-new_server_owners fn metrics_on rate now es k t found is_owned =
      let start = new_server c fn metrics_on rate now in
      let v = run c start es in
      let a = run-IsAttended es start (new_server-IsAttended c fn metrics_on rate now) in
      elim (Option-cases (lookup t.owner_id v.outer.manager.sessions)) [
        | inl missing ↦ absurd (a.owners.at_key k t found is_owned missing)
        | inr (s, there) ↦ (s, there)
      ]
