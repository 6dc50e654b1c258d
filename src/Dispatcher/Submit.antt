-- ===== src/Dispatcher/Submit.antt =====
-- handleSubmit: only the owner of a task submits for it.
use dwcs.Base.{
  ℕ, suc, String, true, false, some, ◌≡◌, ◌≢◌, inl, inr, arith, ok, Option-cases, str_eq,
  str_eq_iff, str_eq_of_ne,
}
use dwcs.GoMap.{lookup}
use dwcs.Session.{Session, send_to}
use dwcs.Protocol.{
  Codec, Envelope, result_rejected, SubmitResultPayload, msg_result_rejected, encoded, decode,
}
use dwcs.World.Versions.{run}
use dwcs.Task.{Task, list_available}
use dwcs.Task
use dwcs.Merge.{Submission, merge_func}
use dwcs.Merge.Submit.{as_calls, submit_accepted, submit_rejected}
use dwcs.Backend.{Server}
use dwcs.Dispatcher.{handle_submit}
use dwcs.Dispatcher.Frame.{SameCore}

module _ (c : Codec) where
  -- handleSubmit with a payload that decodes, of a session that is there: for a task that is missing,
  -- or that the session does not own, the answer is a rejection, and nothing else is sent. World,
  -- registry and projector stay as they were.
  pub submit_by_stranger :
      (v : Server) (id : String) (env : Envelope) (clock : ℕ → ℕ) (p : SubmitResultPayload)
      (s : Session)
      → decode c.submit_result env ≡ ok p
      → lookup id v.outer.manager.sessions ≡ some s
      → ((t : Task) → lookup p.task_id v.registry.tasks ≡ some t → t.owner_id ≢ id)
      → let v' = (handle_submit c v id env clock).1 in
        SameCore v v'
        × ((reason : String) × (v'.outer.manager
              ≡ send_to id
                  (encoded c msg_result_rejected env.request_id
                    (some (result_rejected (record { task_id = p.task_id; reason = reason }))))
                  v.outer.manager))
  unfolding handle_submit Task.get
  submit_by_stranger v id env clock p s decoded here stranger =
      elim (Option-cases (lookup p.task_id v.registry.tasks)) [
        | inl missing ↦
            ((ground arith, ground arith, ground arith), ("task not found", ground arith))
        | inr (t, found) ↦
            let other : str_eq t.owner_id id ≡ false =
              str_eq_of_ne t.owner_id id (stranger t found) in
            ((ground arith, ground arith, ground arith), ("not owner", ground arith))
      ]

  -- handleSubmit with a payload that decodes, by the owner of the task: if the merge function accepts,
  -- the world goes through its updates in order, each an Apply, and if not the world stays as it was.
  pub submit_by_owner :
      (v : Server) (id : String) (env : Envelope) (clock : ℕ → ℕ) (p : SubmitResultPayload)
      (t : Task)
      → decode c.submit_result env ≡ ok p
      → lookup p.task_id v.registry.tasks ≡ some t
      → t.owner_id ≡ id
      → let sub : Submission = record {
        task_id = p.task_id;
        owner_id = id;
        payload = p.payload;
        meta = p.meta;
      } in
        let d = merge_func v.merge_fn sub in
        let v' = (handle_submit c v id env clock).1 in
        (d.accept ≡ true
          → v'.world ≡ (run (v.world, v.outer) (as_calls (λ i. clock (suc i)) d.updates)).0)
        × (d.accept ≡ false → v'.world ≡ v.world)
  unfolding handle_submit Task.get
  submit_by_owner v id env clock p t decoded found owner =
      let sub : Submission = record {
        task_id = p.task_id;
        owner_id = id;
        payload = p.payload;
        meta = p.meta;
      } in
      let mine : str_eq t.owner_id id ≡ true = (str_eq_iff t.owner_id id).1 owner in
      (
        (λ accepted. ground (
          arith,
          (submit_accepted v.merge_fn v.world v.outer (λ i. clock (suc i)) sub accepted).2,
        )),
        λ rejected. ground (
          arith,
          (submit_rejected v.merge_fn v.world v.outer (λ i. clock (suc i)) sub rejected).3,
        ),
      )
