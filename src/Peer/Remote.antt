-- ===== src/Peer/Remote.antt =====
-- What the messages of other nodes do to a node.
use dwcs.Base.{
  ℕ, suc, ◌-◌, ◌^◌, ◌<◌, String, true, false, none, some, List, [], ◌∷◌, ◌≡◌, ◌≢◌, refl, inl, inr,
  arith, Result, ok, err, Bytes, Option-cases, All,
}
use dwcs.GoMap.{lookup}
use dwcs.GoMap.Laws.{lookup-insert_self}
use dwcs.World.{World, Object, UpdateRequest, get, apply, merged, clone_object, prev_version_of}
use dwcs.World.Versions.{run}
use dwcs.Merge.{merge_func, Submission}
use dwcs.Merge.Submit.{as_calls, submit_accepted, submit_rejected}
use dwcs.Protocol.{Codec, Envelope, ObjectDiff, SubmitResultPayload, WorldUpdatePayload, decode}
use dwcs.Peering.{PeeringManager}
use dwcs.Gossip.{message_id, should_forward}
use dwcs.Gossip.Window.{should_forward_again}
use dwcs.Peer.{
  Node, Reach, is_stale, take_diff, take_diffs, handle_world_update, handle_remote_submit,
  handle_peer_message,
}

module _ {N : Type 0} (mgr : PeeringManager N) (c : Codec) where
  take_diffs-stale :
      (request_id from : String) (diffs : List ObjectDiff) (clock : ℕ → ℕ) (n : Node N)
      → All (λ d. is_stale n.world d ≡ true) diffs
      → take_diffs mgr c request_id from diffs clock n ≡ n
  unfolding take_diffs
  take_diffs-stale request_id from [] clock n stale = refl
  take_diffs-stale request_id from (d ∷ ds) clock n stale =
      ground (arith, take_diffs-stale request_id from ds (λ i. clock (suc i)) n stale.1, stale.0)

  take_diffs-gossip :
      (request_id from : String) (diffs : List ObjectDiff) (clock : ℕ → ℕ) (n : Node N)
      → (take_diffs mgr c request_id from diffs clock n).gossip ≡ n.gossip
  unfolding take_diffs
  take_diffs-gossip request_id from [] clock n = refl
  take_diffs-gossip request_id from (d ∷ ds) clock n =
      let newer = take_diff mgr c request_id from d (clock 0) n in
      let later : ℕ → ℕ = λ i. clock (suc i) in
      let kept : newer.gossip ≡ n.gossip = unfold take_diff in refl in
      ground (
        arith,
        kept,
        take_diffs-gossip request_id from ds later n,
        take_diffs-gossip request_id from ds later newer,
      )

  -- A world update that has no diff newer than the node's objects changes nothing, and is not
  -- passed on.
  pub handle_world_update_stale :
      (from : String) (env : Envelope) (p : WorldUpdatePayload) (clock : ℕ → ℕ) (n : Node N)
      → decode c.world_update env ≡ ok p
      → All (λ d. is_stale n.world d ≡ true) p.objects
      → handle_world_update mgr c from env clock n ≡ n
  unfolding handle_world_update
  handle_world_update_stale from env p clock n reads stale =
      ground (arith, take_diffs-stale env.request_id from p.objects clock n stale, reads)

  handle_world_update-gossip :
      (from : String) (env : Envelope) (clock : ℕ → ℕ) (n : Node N)
      → (handle_world_update mgr c from env clock n).gossip ≡ n.gossip
  unfolding handle_world_update
  handle_world_update-gossip from env clock n = split (decode c.world_update env) refl
    where
      split :
          (x : Result String WorldUpdatePayload)
          → decode c.world_update env ≡ x
          → (handle_world_update mgr c from env clock n).gossip ≡ n.gossip
      split (err e) q = ground (arith, q)
      split (ok p) q = ground (arith, q, take_diffs-gossip env.request_id from p.objects clock n)

  handle_remote_submit-gossip :
      (from : String) (env : Envelope) (clock : ℕ → ℕ) (n : Node N)
      → (handle_remote_submit mgr c from env clock n).gossip ≡ n.gossip
  unfolding handle_remote_submit
  handle_remote_submit-gossip from env clock n = ground arith

  handle_peer_message-gossip :
      (text : Bytes → String) (from : String) (env : Envelope) (now : ℕ) (clock : ℕ → ℕ)
      (n : Node N)
      → (handle_peer_message mgr c text from env now clock n).gossip
        ≡ (should_forward text env now n.gossip).1
  unfolding handle_peer_message
  handle_peer_message-gossip text from env now clock n =
      let n₁ = record n { gossip = (should_forward text env now n.gossip).1 } in
      ground (
        arith,
        handle_world_update-gossip from env clock n₁,
        handle_remote_submit-gossip from env clock n₁,
      )

  handle_peer_message_seen :
      (text : Bytes → String) (by : String) (env : Envelope) (now : ℕ) (clock : ℕ → ℕ) (n : Node N)
      → should_forward text env now n.gossip ≡ (false, n.gossip)
      → handle_peer_message mgr c text by env now clock n ≡ n
  unfolding handle_peer_message
  handle_peer_message_seen text by env now clock n seen = ground arith

  -- A message that comes again at once changes nothing the second time, from whichever peer it comes.
  pub handle_peer_message_twice :
      (text : Bytes → String) (from by : String) (env again : Envelope) (now later : ℕ)
      (clock tick : ℕ → ℕ) (n : Node N)
      → message_id text again ≡ message_id text env
      → let n' = handle_peer_message mgr c text from env now clock n in
        handle_peer_message mgr c text by again later tick n' ≡ n'
  handle_peer_message_twice text from by env again now later clock tick n same =
      let n' = handle_peer_message mgr c text from env now clock n in
      let kept = handle_peer_message-gossip text from env now clock n in
      handle_peer_message_seen text by again later tick n'
        (rw (kept, should_forward_again text n.gossip env again now later same))

  is_stale_newer :
      (w : World (Reach N)) (d : ObjectDiff)
      → prev_version_of (lookup d.object_id w.objects) < d.version
      → is_stale w d ≡ false
  unfolding is_stale get clone_object prev_version_of
  is_stale_newer w d newer = elim (Option-cases (lookup d.object_id w.objects)) [
    | inl missing ↦ ground arith
    | inr (o, found) ↦ ground arith
  ]

  take_diff_lem :
      (request_id from : String) (d : ObjectDiff) (now : ℕ) (n : Node N)
      → prev_version_of (lookup d.object_id n.world.objects) < 2 ^ 64 - 1
      → let n' = take_diff mgr c request_id from d now n in
        (o : Object) × (lookup d.object_id n'.world.objects ≡ some o)
        × (o.version ≡ suc (prev_version_of (lookup d.object_id n.world.objects)))
        × (d.payload ≢ none → o.payload ≡ d.payload)
        × (d.meta ≢ none → o.meta ≡ d.meta)
  unfolding take_diff apply merged prev_version_of
  take_diff_lem request_id from d now n small =
      let req : UpdateRequest = record {
        object_id = d.object_id;
        payload = d.payload;
        expected_version = 0;
        tags = n.tags;
        meta = d.meta;
      } in
      let o = merged (lookup d.object_id n.world.objects) req now in
      elim (Option-cases (lookup d.object_id n.world.objects)) [
        | inl missing ↦ (
          o,
          ground (arith, lookup-insert_self d.object_id o n.world.objects),
          ground arith,
          ground arith,
          ground arith,
        )
        | inr (p, found) ↦ (
          o,
          ground (arith, lookup-insert_self d.object_id o n.world.objects),
          ground arith,
          ground arith,
          ground arith,
        )
      ]

  -- The only diff of a world update, if it is newer than the node's object, moves that object on by
  -- one version, whatever version the diff has; a node without the object stores it at version 1.
  -- The object is then as the diff says where the diff says something.
  pub remote_update_by_one :
      (from : String) (env : Envelope) (d : ObjectDiff) (clock : ℕ → ℕ) (n : Node N)
      → decode c.world_update env ≡ ok (record { objects = d ∷ [] })
      → prev_version_of (lookup d.object_id n.world.objects) < d.version
      → d.version < 2 ^ 64
      → let n' = handle_world_update mgr c from env clock n in
        (o : Object) × (lookup d.object_id n'.world.objects ≡ some o)
        × (o.version ≡ suc (prev_version_of (lookup d.object_id n.world.objects)))
        × (d.payload ≢ none → o.payload ≡ d.payload)
        × (d.meta ≢ none → o.meta ≡ d.meta)
  unfolding handle_world_update take_diffs
  remote_update_by_one from env d clock n reads newer small =
      let (o, found, next, says, also) =
        take_diff_lem env.request_id from d (clock 0) n (omega (arith, newer, small)) in
      (o, ground (arith, is_stale_newer n.world d newer), next, says, also)

  -- A submission from another node, with a payload that decodes, reaches the world as the merge
  -- function decides: if it accepts, the world goes through its updates in order, and if not the
  -- world stays as it was. No task is looked at.
  pub remote_submit_lem :
      (from : String) (env : Envelope) (p : SubmitResultPayload) (clock : ℕ → ℕ) (n : Node N)
      → decode c.submit_result env ≡ ok p
      → let sub : Submission = record {
        task_id = p.task_id;
        owner_id = from;
        payload = p.payload;
        meta = p.meta;
      } in
        let d = merge_func n.merge_fn sub in
        let n' = handle_remote_submit mgr c from env clock n in
        (d.accept ≡ true
          → n'.world ≡ (run (n.world, n.reach) (as_calls (λ i. clock (suc i)) d.updates)).0)
        × (d.accept ≡ false → n'.world ≡ n.world)
  unfolding handle_remote_submit
  remote_submit_lem from env p clock n reads =
      let sub : Submission = record {
        task_id = p.task_id;
        owner_id = from;
        payload = p.payload;
        meta = p.meta;
      } in
      (
        λ yes.
            ground (
              arith,
              submit_accepted n.merge_fn n.world n.reach (λ i. clock (suc i)) sub yes,
              reads,
            ),
        λ no.
            ground (
              arith,
              submit_rejected n.merge_fn n.world n.reach (λ i. clock (suc i)) sub no,
              reads,
            ),
      )
