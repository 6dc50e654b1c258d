-- ===== src/Peer/Apart.antt =====
-- Two nodes that have changed the same object at the same time.
use dwcs.Base.{ℕ, String, some, [], ◌∷◌, ◌≡◌, sym, ap, arith, ok}
use dwcs.GoMap.{lookup}
use dwcs.World.{Object, get}
use dwcs.Protocol.{Codec, Envelope, decode}
use dwcs.Peering.{PeeringManager}
use dwcs.Peer.{Node, diff_of, is_stale, handle_world_update}
use dwcs.Peer.Remote.{handle_world_update_stale}

module _ {N : Type 0} (mgr : PeeringManager N) (c : Codec) where
  passes_over :
      (from id : String) (o other : Object) (env : Envelope) (clock : ℕ → ℕ) (n : Node N)
      → lookup id n.world.objects ≡ some o
      → other.id ≡ id
      → other.version ≡ o.version
      → decode c.world_update env ≡ ok (record { objects = diff_of other ∷ [] })
      → handle_world_update mgr c from env clock n ≡ n
  passes_over from id o other env clock n here same equal reads =
      handle_world_update_stale mgr c from env (record { objects = diff_of other ∷ [] }) clock n
        reads
        (
          (unfold is_stale get in
              ground (arith, here, same, equal, ap (λ j. lookup j n.world.objects) same)),
          tt,
        )

  -- Two nodes that have the same object at the same version each pass over the update by which the
  -- other one announces its own, and stay as they are, whatever the data: where the data differ, the
  -- nodes stay apart.
  pub handle_world_update_crossed :
      (id : String) (mine yours : Object) (from_me from_you : String) (my_news your_news : Envelope)
      (clock : ℕ → ℕ) (me you : Node N)
      → lookup id me.world.objects ≡ some mine
      → lookup id you.world.objects ≡ some yours
      → mine.id ≡ id
      → yours.id ≡ id
      → mine.version ≡ yours.version
      → decode c.world_update my_news ≡ ok (record { objects = diff_of mine ∷ [] })
      → decode c.world_update your_news ≡ ok (record { objects = diff_of yours ∷ [] })
      → (handle_world_update mgr c from_you your_news clock me ≡ me)
        × (handle_world_update mgr c from_me my_news clock you ≡ you)
  handle_world_update_crossed id mine yours from_me from_you my_news your_news clock me you here
        there m y equal reads_mine reads_yours =
      (
        passes_over from_you id mine yours your_news clock me here y (sym equal) reads_yours,
        passes_over from_me id yours mine my_news clock you there m equal reads_mine,
      )
