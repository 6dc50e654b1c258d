-- ===== src/Session/Outbox.antt =====
-- The outbox of one session over any history of sends, receives and closes.
use mathlib.Core.List.{Sublist}
use mathlib.Core.List.Sublist
use dwcs.Base.{
  ℕ, ◌≤◌, ◌<◌, String, true, false, not, ◌&&◌, ◌||◌, Option, none, some, List, [], ◌∷◌, ◌++◌,
  append_assoc, append-nil, ◌≡◌, refl, ◌∙◌, ◌⊎◌, inl, inr, arith, ok, err, Slice, elems, Bytes,
  str_eq, length, length-append, any,
}
use dwcs.Session.{
  Session, session_closed, outbox_buffer, new_session, send, receive, close, subscribe, unsubscribe,
  has_tag,
}
use dwcs.Tags.{has-add_tags, has-remove_tags}

pub data Event : Type 0 where
  sends : Bytes → Event
  takes closes : Event

abbrev also : Option Bytes → List Bytes → List Bytes
also none ms = ms
also (some m) ms = m ∷ ms

-- The messages that the receiver took, oldest first, and the session afterwards.
unfoldable pub play : Session → List Event → List Bytes × Session
play s [] = ([], s)
play s (sends msg ∷ es) = play (send msg s).1 es
play s (closes ∷ es) = play (close s) es
play s (takes ∷ es) = let (m, s') = receive s in let (ms, s'') = play s' es in (also m ms, s'')

-- What was handed to Send.
abbrev pub sent : List Event → List Bytes
sent [] = []
sent (sends msg ∷ es) = msg ∷ sent es
sent (takes ∷ es) = sent es
sent (closes ∷ es) = sent es

skip : (xs : List Bytes) (m : Bytes) (ys : List Bytes) → Sublist (xs ++ ys) (xs ++ m ∷ ys)
skip xs m ys = Sublist.append (Sublist.refl xs) (Sublist.cons m (Sublist.refl ys))

-- A message sent joins the end of the outbox, or is dropped whole.
send-outbox :
    (msg : Bytes) (s : Session)
    → ((send msg s).1.outbox ≡ s.outbox ++ msg ∷ []) ⊎ ((send msg s).1.outbox ≡ s.outbox)
unfolding send
send-outbox msg s = ground arith

close-outbox : (s : Session) → (close s).outbox ≡ s.outbox
unfolding close
close-outbox s = ground arith

play-sublist_from :
    (xs : List Bytes) (s : Session) (es : List Event)
    → s.outbox ≡ xs
    → Sublist ((play s es).0 ++ (play s es).1.outbox) (xs ++ sent es)
unfolding play receive
play-sublist_from xs s [] e = rw (append-nil, e) (Sublist.refl xs)
play-sublist_from xs s (sends msg ∷ es) e = elim (send-outbox msg s) [
  | inl joined ↦
      rw append_assoc at (play-sublist_from (xs ++ msg ∷ []) (send msg s).1 es (rw (joined, e)))
  | inr dropped ↦
      Sublist.trans (play-sublist_from xs (send msg s).1 es (dropped ∙ e)) (skip xs msg (sent es))
]
play-sublist_from xs s (closes ∷ es) e = play-sublist_from xs (close s) es (close-outbox s ∙ e)
play-sublist_from [] s (takes ∷ es) e = rw (e, receive) (play-sublist_from [] s es e)
play-sublist_from (x ∷ xs) s (takes ∷ es) e =
    unfold receive in
    rw (e, receive) (Sublist.cons-cons x (play-sublist_from xs (record s { outbox = xs }) es refl))

-- Delivery keeps the order and invents nothing: what the receiver took, followed by what still
-- waits, is what waited before and what was sent, in that order, with some messages left out.
pub play-sublist :
    (s : Session) (es : List Event)
    → Sublist ((play s es).0 ++ (play s es).1.outbox) (s.outbox ++ sent es)
play-sublist s es = play-sublist_from s.outbox s es refl

send-length :
    (msg : Bytes) (s : Session)
    → length s.outbox ≤ outbox_buffer
    → length (send msg s).1.outbox ≤ outbox_buffer
unfolding send
send-length msg s h = ground (arith, length-append s.outbox (msg ∷ []))

receive-length : (s : Session) → length (receive s).1.outbox ≤ length s.outbox
unfolding receive
receive-length s = ground arith

play-length_from :
    (s : Session) (es : List Event)
    → length s.outbox ≤ outbox_buffer
    → length (play s es).1.outbox ≤ outbox_buffer
unfolding play
play-length_from s [] h = h
play-length_from s (sends msg ∷ es) h = play-length_from (send msg s).1 es (send-length msg s h)
play-length_from s (closes ∷ es) h = play-length_from (close s) es (rw close-outbox h)
play-length_from s (takes ∷ es) h =
    play-length_from (receive s).1 es (omega (arith, receive-length s))

-- The outbox of a new session never holds more than 512 messages, whatever is sent and received.
pub play-new-length-le :
    (id : String) (now : ℕ) (es : List Event) → length (play (new_session id now) es).1.outbox ≤ 512
unfolding new_session
play-new-length-le id now es = play-length_from _ es (omega arith)

-- Send fails on a closed session only, which it leaves alone; a message to an open session with
-- room is queued last, and one to a full outbox is dropped although Send returns no error.
pub send_lem :
    (msg : Bytes) (s : Session)
    → (s.closed ≡ true → send msg s ≡ (err session_closed, s))
      × (s.closed ≡ false
          → length s.outbox < 512
          → send msg s ≡ (ok tt, record s { outbox = s.outbox ++ msg ∷ [] }))
      × (s.closed ≡ false → 512 ≤ length s.outbox → send msg s ≡ (ok tt, s))
unfolding send
send_lem msg s = ((λ c. ground arith), (λ c room. ground arith), (λ c full. ground arith))

-- After Subscribe the session has its old tags and the new ones, after Unsubscribe the old ones but
-- for those named.
pub has_tag-subscribe :
    (tags : Slice String) (s : Session) (t : String)
    → (has_tag (subscribe tags s) t ≡ (any (λ u. str_eq u t) (elems tags) || has_tag s t))
      × (has_tag (unsubscribe tags s) t ≡ (not (any (λ u. str_eq u t) (elems tags)) && has_tag s t))
unfolding has_tag subscribe unsubscribe
has_tag-subscribe tags s t =
    (has-add_tags t (elems tags) s.tags, has-remove_tags t (elems tags) s.tags)
