-- ===== src/Transport/Departure.antt =====
-- What is left of a client when its connection has ended.
use dwcs.Base.{
  ℕ, String, Bool, Option, none, List, [], ◌∷◌, ◌≡◌, ◌≢◌, ap, ◌∙◌, inl, inr, Bytes, Duration,
  Option-cases,
}
use dwcs.GoMap.{lookup}
use dwcs.GoMap.Laws.{lookup-delete_self}
use dwcs.Session.{Manager, remove}
use dwcs.Protocol.{Codec}
use dwcs.Task.Owners.{IsOwnedBy, IsOwnedBy-mono}
use dwcs.Merge.{MergeFunc}
use dwcs.Backend.{Server, new_server, on_disconnect}
use dwcs.Transport.{Event, connect, disconnect, read_line, read_lines, handle_conn, run}
use dwcs.Transport.Owners.{IsHere, IsAttended, new_server-IsAttended}
use dwcs.Transport.Steps.{connect-IsAttended, read_line-IsAttended, disconnect-IsAttended}
use dwcs.Transport.Life.{run-IsAttended}

lookup-remove : (id : String) (m : Manager) → lookup id (remove m id).1.sessions ≡ none
unfolding remove
lookup-remove id m = elim (Option-cases (lookup id m.sessions)) [
  | inl missing ↦ rw (missing, remove) missing
  | inr (s, found) ↦ rw (found, remove) (lookup-delete_self id m.sessions)
]

pub lookup-disconnect :
    (id : String) (stamp : String → ℕ) (v : Server)
    → lookup id (disconnect id stamp v).outer.manager.sessions ≡ none
unfolding disconnect
lookup-disconnect id stamp v = lookup-remove id (on_disconnect id stamp v).outer.manager

module _ (c : Codec) where
  read_lines-IsAttended :
      (id : String) (lines : List (Bytes × (ℕ → ℕ))) (v : Server)
      → IsAttended (λ j. ⊥) v
      → IsAttended (λ j. ⊥) (read_lines c id lines v)
  unfolding read_lines
  read_lines-IsAttended id [] v a = a
  read_lines-IsAttended id ((line, clock) ∷ lines) v a =
      read_lines-IsAttended id lines (read_line c id line clock v)
        (read_line-IsAttended c id line clock v a)

  -- A connection from its start to its end, at the server as main sets it up and after any
  -- history, with lines of any content and nothing else happening meanwhile: when it has ended,
  -- its session is gone, and no task is owned by it any more.
  pub handle_conn-leaves :
      (fn : Option MergeFunc) (metrics_on : Bool) (rate : Duration) (start : ℕ) (es : List Event)
      (id : String) (now : ℕ) (lines : List (Bytes × (ℕ → ℕ))) (stamp : String → ℕ)
      → let v =
          handle_conn c id now lines stamp (run c (new_server c fn metrics_on rate start) es) in
        (lookup id v.outer.manager.sessions ≡ none) × IsOwnedBy (λ owner. owner ≢ id) v.registry
  unfolding handle_conn
  handle_conn-leaves fn metrics_on rate start es id now lines stamp =
      let v₀ = run c (new_server c fn metrics_on rate start) es in
      let a₀ =
        run-IsAttended c es (new_server c fn metrics_on rate start)
          (new_server-IsAttended c fn metrics_on rate start) in
      let v₁ = read_lines c id lines (connect id now v₀) in
      let a₁ =
        read_lines-IsAttended id lines (connect id now v₀) (connect-IsAttended id now v₀ a₀) in
      let v₂ = disconnect id stamp v₁ in
      let a₂ : IsAttended (λ j. ⊥) v₂ = disconnect-IsAttended id stamp v₁ (λ j q. absurd q) a₁ in
      let gone = lookup-disconnect id stamp v₁ in
      (
        gone,
        IsOwnedBy-mono (IsHere v₂.outer) (λ owner. owner ≢ id) v₂.registry
            (λ owner here same. here (ap (λ j. lookup j v₂.outer.manager.sessions) same ∙ gone))
            a₂.owners,
      )
