-- ===== src/Peering/Peers/Framing.antt =====
-- internal/peering/peering.go: what writeLoop writes to a connection, and what ReadBytes reads on the
-- other side of it.
use dwcs.Base.{
  ℕ, zero, suc, false, List, [], ◌∷◌, ◌++◌, map, append_assoc, ◌≡◌, refl, ap, ◌∙◌, arith, elems,
  Bytes, if◌then◌else◌, ◌==◌, length, All,
}
use dwcs.Peering.Peers.{Peer}

abbrev pub newline : ℕ
newline = 10

-- One round of writeLoop whose writes succeed: the bytes that go to the connection.
unfoldable pub write_one : Peer → List ℕ × Peer
write_one p = elim p.outbox [
  | [] ↦ ([], p)
  | msg ∷ rest ↦ (elems msg ++ newline ∷ [], record p { outbox = rest })
]

-- writeLoop for so many rounds.
unfoldable pub write_loop : ℕ → Peer → List ℕ × Peer
unfolding write_one
write_loop zero p = ([], p)
write_loop (suc n) p =
    let (bytes, p₁) = write_one p in let (more, p₂) = write_loop n p₁ in (bytes ++ more, p₂)

-- The lines that ReadBytes returns of a stream, each with its end, `line` being what was read of the
-- present one. What follows the last end is not returned.
unfoldable pub lines_from : List ℕ → List ℕ → List (List ℕ)
lines_from line [] = []
lines_from line (b ∷ bytes) =
    let next = lines_from [] bytes in
    let rest = lines_from (line ++ b ∷ []) bytes in
    if b == newline then (line ++ b ∷ []) ∷ next else rest

abbrev pub IsPlain : List ℕ → Type 0
IsPlain msg = All (λ b. (b == newline) ≡ false) msg

-- A message with its end is one line.
lines-append :
    (msg line bytes : List ℕ)
    → IsPlain msg
    → lines_from line ((msg ++ newline ∷ []) ++ bytes)
      ≡ (line ++ (msg ++ newline ∷ [])) ∷ lines_from [] bytes
unfolding lines_from
lines-append [] line bytes plain = refl
lines-append (b ∷ msg) line bytes plain =
    ground (arith, plain.0)
    ∙ lines-append msg (line ++ b ∷ []) bytes plain.1
    ∙ ap (λ x. x ∷ lines_from [] bytes) (append_assoc line (b ∷ []) (msg ++ newline ∷ []))

abbrev pub with_end : Bytes → List ℕ
with_end msg = elems msg ++ newline ∷ []

write_loop_lem :
    (msgs : List Bytes) (p : Peer)
    → p.outbox ≡ msgs
    → All (λ msg. IsPlain (elems msg)) msgs
    → (lines_from [] (write_loop (length msgs) p).0 ≡ map with_end msgs)
      × ((write_loop (length msgs) p).1 ≡ record p { outbox = [] })
unfolding write_loop lines_from
write_loop_lem [] p waits plain = (refl, λ i. record p { outbox = waits i })
write_loop_lem (msg ∷ msgs) p waits plain =
    let p₁ : Peer = record p { outbox = msgs } in
    let one : write_one p ≡ (with_end msg, p₁) = unfold write_one in rw (waits, write_one) refl in
    let (read, left) = write_loop_lem msgs p₁ refl plain.1 in
    (
      ap (λ (x : List ℕ × Peer). lines_from [] (x.0 ++ (write_loop (length msgs) x.1).0)) one
          ∙ lines-append (elems msg) [] (write_loop (length msgs) p₁).0 plain.0
          ∙ ap (λ xs. with_end msg ∷ xs) read,
      ap (λ (x : List ℕ × Peer). (write_loop (length msgs) x.1).1) one ∙ left,
    )

-- Where no message that waits has a line end in it, as no JSON text on one line has, the other side
-- reads from what writeLoop writes of them the same messages, in their order, each with a line end;
-- and as many rounds as there are messages leave the outbox empty.
pub lines_from-write_loop :
    (p : Peer)
    → All (λ msg. IsPlain (elems msg)) p.outbox
    → (lines_from [] (write_loop (length p.outbox) p).0 ≡ map with_end p.outbox)
      × ((write_loop (length p.outbox) p).1 ≡ record p { outbox = [] })
lines_from-write_loop p plain = write_loop_lem p.outbox p refl plain
