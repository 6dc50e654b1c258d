-- ===== src/Transport/Owners.antt =====
-- Who owns tasks while the server runs: connected sessions only.
use dwcs.Base.{
  ℕ, String, Bool, Option, none, some, ◌≡◌, ◌≢◌, refl, sym, ap, subst, inl, inr, arith, Result, ok,
  err, Slice, Bytes, recovered, Duration, Option-cases,
}
use dwcs.GoMap.{GoMap, lookup, adjust}
use dwcs.GoMap.Laws.{lookup-adjust}
use dwcs.Session.{
  Session, Manager, send, send_to, broadcast, add, remove, receive, each, each_entry,
}
use dwcs.Session
use dwcs.Session.Broadcast.{lookup-broadcast}
use dwcs.Protocol.{Codec, encode, msg_task_available, task_available}
use dwcs.World.{ChangeEvent}
use dwcs.World
use dwcs.Task.{
  Registry, on_available, on_ownership_lost, new_registry, LostEvent, AvailableEvent, fire_lost,
  fire_available,
}
use dwcs.Task.Owners.{IsOwnedBy, IsOwnedBy-mono}
use dwcs.Task.Calm.{IsCalm, IsCalm-same}
use dwcs.Merge.{MergeFunc}
use dwcs.Merge.Callbacks.{Keeps}
use dwcs.Transport.Away.{IsAway, on_lost-IsAway, on_task_available-IsAway}
use dwcs.Dispatcher.{reply}
use dwcs.Backend.{
  note_change, note_registered, Outer, Server, on_lost, on_task_available, on_world_change,
  new_server,
}

-- The session is in the manager's map.
abbrev pub IsHere : Outer → String → Type 0
IsHere o id = lookup id o.manager.sessions ≢ none

module _ {V : Type 0} where
  pub adjust-ne :
      (k id : String) (f : V → V) (m : GoMap V)
      → lookup id m ≢ none
      → lookup id (adjust k f m) ≢ none
  adjust-ne k id f m here gone = elim (Option-cases (lookup id m)) [
    | inl missing ↦ here missing
    | inr (v, found) ↦ ground (arith, lookup-adjust k id f m)
  ]

pub broadcast-ne :
    (tags : Slice String) (msg : Bytes) (m : Manager) (id : String)
    → lookup id m.sessions ≢ none
    → lookup id (broadcast tags msg m).sessions ≢ none
broadcast-ne tags msg m id here gone = elim (Option-cases (lookup id m.sessions)) [
  | inl missing ↦ here missing
  | inr (s, found) ↦ ground (arith, lookup-broadcast tags msg m id)
]

module _ (c : Codec) where
  on_lost-IsHere :
      (evt : LostEvent) (o : Outer) (id : String) → IsHere o id → IsHere (on_lost c evt o) id
  unfolding on_lost send_to Session.get
  on_lost-IsHere evt o id here = elim (Option-cases (lookup evt.owner_id o.manager.sessions)) [
    | inl missing ↦ rw (missing, on_lost, Session.get) here
    | inr (s, found) ↦
        rw (found, on_lost, Session.get) (adjust-ne evt.owner_id id _ o.manager.sessions here)
  ]

  on_task_available-IsHere :
      (evt : AvailableEvent) (o : Outer) (id : String)
      → IsHere o id
      → IsHere (recovered (on_task_available c evt o)) id
  unfolding on_task_available recovered
  on_task_available-IsHere evt o id here =
      split
        (encode c msg_task_available "" (
          some
            (task_available (record { task_id = evt.task_id; tags = evt.tags; hint = evt.hint }))))
        refl
    where
      same : lookup id (note_registered c evt o).manager.sessions ≢ none
      same = unfold note_registered in ground (arith, here)

      split :
          (x : Result String Bytes)
          → encode c msg_task_available "" (
              some (
                task_available
                  (record { task_id = evt.task_id; tags = evt.tags; hint = evt.hint })))
            ≡ x
          → IsHere (recovered (on_task_available c evt o)) id
      split (err e) q = rw (q, on_task_available, recovered) same
      split (ok msg) q =
          rw (q, on_task_available, recovered)
            (broadcast-ne evt.tags msg (note_registered c evt o).manager id same)

on_world_change-IsHere :
    (evt : ChangeEvent) (o : Outer) (id : String)
    → IsHere o id
    → IsHere (recovered (on_world_change evt o)) id
unfolding on_world_change recovered
on_world_change-IsHere evt o id here = unfold note_change in ground (arith, here)

-- The owner of each owned task is a session in the map, and no callback takes a session out of it or
-- puts one in.
-- The sessions with an id of `P` are there.
pub record IsAttended (P : String → Type 0) (v : Server) : Type 0 where
  pub owners : IsOwnedBy (IsHere v.outer) v.registry
  pub calm : (id : String) → IsCalm (λ o. IsHere o id) v.registry
  pub apart : (id : String) → IsCalm (λ o. IsAway o id) v.registry
  pub still : (id : String) → Keeps (λ o. IsHere o id) v.world
  pub present : (id : String) → P id → IsHere v.outer id

module _ {P : String → Type 0} where
  pub next-IsAttended :
      (v v' : Server)
      → IsOwnedBy (IsHere v.outer) v'.registry
      → (v'.registry.lost_handlers ≡ v.registry.lost_handlers)
        × (v'.registry.avail_handlers ≡ v.registry.avail_handlers)
      → v'.world.handlers ≡ v.world.handlers
      → ((id : String) → IsHere v.outer id → IsHere v'.outer id)
      → IsAttended P v
      → IsAttended P v'
  next-IsAttended v v' owned_by same w stays a = record {
    owners = IsOwnedBy-mono (IsHere v.outer) (IsHere v'.outer) v'.registry stays owned_by;
    calm = λ id. IsCalm-same (λ o. IsHere o id) v.registry v'.registry same.0 same.1 (a.calm id);
    apart = λ id. IsCalm-same (λ o. IsAway o id) v.registry v'.registry same.0 same.1 (a.apart id);
    still = λ id evt o here.
        subst (λ hs. IsHere (World.fire evt hs o) id) (sym w) (a.still id evt o here);
    present = λ id p. stays id (a.present id p);
  }

  -- A step that leaves registry and world alone.
  pub moved-IsAttended :
      (v v' : Server)
      → v'.registry ≡ v.registry
      → v'.world ≡ v.world
      → ((id : String) → IsHere v.outer id → IsHere v'.outer id)
      → IsAttended P v
      → IsAttended P v'
  moved-IsAttended v v' r w stays a =
      next-IsAttended v v' (subst (IsOwnedBy (IsHere v.outer)) (sym r) a.owners)
        (
          ap (λ (x : Registry Outer). x.lost_handlers) r,
          ap (λ (x : Registry Outer). x.avail_handlers) r,
        )
        (ap (λ (x : World.World Outer). x.handlers) w) stays a

module _ (c : Codec) where
  pub new_server-IsAttended :
      (fn : Option MergeFunc) (metrics_on : Bool) (tick_rate : Duration) (now : ℕ)
      → IsAttended (λ id. ⊥) (new_server c fn metrics_on tick_rate now)
  unfolding new_server lookup fire_lost fire_available World.fire on_available on_ownership_lost
      new_registry World.on_change World.new
  new_server-IsAttended fn metrics_on tick_rate now = record {
    owners = record { at_key = λ k t found is_owned. absurd (ground arith) };
    calm = λ id. record {
      lost = λ evt o here. on_lost-IsHere c evt o id here;
      avail = λ evt o here. on_task_available-IsHere c evt o id here;
    };
    apart = λ id. record {
      lost = λ evt o away. on_lost-IsAway c evt o id away;
      avail = λ evt o away. on_task_available-IsAway c evt o id away;
    };
    still = λ id evt o here. on_world_change-IsHere evt o id here;
    present = λ id p. absurd p;
  }

module _ {P : String → Type 0} where
  pub reply-IsAttended :
      (v : Server) (id : String) (msg : Bytes) → IsAttended P v → IsAttended P (reply v id msg).1
  unfolding reply send_to
  reply-IsAttended v id msg a = elim (Option-cases (lookup id v.outer.manager.sessions)) [
    | inl missing ↦ rw (missing, reply) a
    | inr (s, found) ↦
        rw (found, reply)
          (moved-IsAttended v _ refl refl (λ j here. adjust-ne id j _ v.outer.manager.sessions here)
            a)
  ]
