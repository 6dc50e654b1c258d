-- ===== src/Drain.antt =====
-- The inner loop of flushOutboxes, in internal/peering/udp.go and in internal/transport/udp.go: it takes
-- what waits in the channel of an outbox, until it would have to wait.
use dwcs.Base.{
  ℕ, zero, suc, ◌<◌, List, [], ◌∷◌, ◌++◌, append_assoc, append-nil, ◌≡◌, sym, ap, ◌∙◌, arith, Bytes,
  length,
}

-- What is left in the outbox, and what was taken. The fuel is one more than the messages that wait.
unfoldable pub drain : ℕ → List Bytes → List Bytes → List Bytes × List Bytes
drain zero outbox taken = (outbox, taken)
drain (suc fuel) [] taken = ([], taken)
drain (suc fuel) (msg ∷ outbox) taken = drain fuel outbox (taken ++ msg ∷ [])

-- With fuel for each message that waits and one round more, the loop takes them all, in order.
pub drain_lem :
    (fuel : ℕ) (outbox taken : List Bytes)
    → length outbox < fuel
    → drain fuel outbox taken ≡ ([], taken ++ outbox)
unfolding drain
drain_lem zero outbox taken h = absurd (omega (arith, h))
drain_lem (suc fuel) [] taken h = ap (λ (xs : List Bytes). ([], xs)) (sym (append-nil taken))
drain_lem (suc fuel) (msg ∷ outbox) taken h =
    drain_lem fuel outbox (taken ++ msg ∷ []) (omega (arith, h))
    ∙ ap (λ (xs : List Bytes). ([], xs)) (append_assoc taken (msg ∷ []) outbox)
