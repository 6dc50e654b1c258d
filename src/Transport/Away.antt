-- ===== src/Transport/Away.antt =====
-- No callback puts a session into the manager's map.
use dwcs.Base.{
  String, none, some, ◌≡◌, refl, inl, inr, arith, Result, ok, err, Slice, Bytes, recovered,
  Option-cases,
}
use dwcs.GoMap.{GoMap, lookup, adjust}
use dwcs.GoMap.Laws.{lookup-adjust}
use dwcs.Session.{Session, Manager, send_to, broadcast}
use dwcs.Session
use dwcs.Session.Broadcast.{lookup-broadcast}
use dwcs.Protocol.{Codec, encode, msg_task_available, task_available}
use dwcs.Task.{LostEvent, AvailableEvent}
use dwcs.Backend.{note_registered, Outer, on_lost, on_task_available}

-- The session is not in the manager's map.
abbrev pub IsAway : Outer → String → Type 0
IsAway o id = lookup id o.manager.sessions ≡ none

module _ {V : Type 0} where
  pub adjust-none :
      (k id : String) (f : V → V) (m : GoMap V)
      → lookup id m ≡ none
      → lookup id (adjust k f m) ≡ none
  adjust-none k id f m away = ground (arith, lookup-adjust k id f m, away)

broadcast-none :
    (tags : Slice String) (msg : Bytes) (m : Manager) (id : String)
    → lookup id m.sessions ≡ none
    → lookup id (broadcast tags msg m).sessions ≡ none
broadcast-none tags msg m id away = ground (arith, lookup-broadcast tags msg m id, away)

module _ (c : Codec) where
  pub on_lost-IsAway :
      (evt : LostEvent) (o : Outer) (id : String) → IsAway o id → IsAway (on_lost c evt o) id
  unfolding on_lost send_to Session.get
  on_lost-IsAway evt o id here = elim (Option-cases (lookup evt.owner_id o.manager.sessions)) [
    | inl missing ↦ rw (missing, on_lost, Session.get) here
    | inr (s, found) ↦
        rw (found, on_lost, Session.get) (adjust-none evt.owner_id id _ o.manager.sessions here)
  ]

  pub on_task_available-IsAway :
      (evt : AvailableEvent) (o : Outer) (id : String)
      → IsAway o id
      → IsAway (recovered (on_task_available c evt o)) id
  unfolding on_task_available recovered
  on_task_available-IsAway evt o id here =
      split
        (encode c msg_task_available "" (
          some
            (task_available (record { task_id = evt.task_id; tags = evt.tags; hint = evt.hint }))))
        refl
    where
      same : lookup id (note_registered c evt o).manager.sessions ≡ none
      same = unfold note_registered in ground (arith, here)

      split :
          (x : Result String Bytes)
          → encode c msg_task_available "" (
              some (
                task_available
                  (record { task_id = evt.task_id; tags = evt.tags; hint = evt.hint })))
            ≡ x
          → IsAway (recovered (on_task_available c evt o)) id
      split (err e) q = rw (q, on_task_available, recovered) same
      split (ok msg) q =
          rw (q, on_task_available, recovered)
            (broadcast-none evt.tags msg (note_registered c evt o).manager id same)
