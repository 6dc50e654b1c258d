-- ===== src/Session.antt =====
-- internal/session/session.go: sessions with their tags and outboxes, and the session manager. A
-- *Session is named by its id: what is written through the pointer is written in the manager's map.
pub mod Tests
pub mod Outbox
pub mod Broadcast
use dwcs.Base.{
  ℕ, zero, suc, ◌+◌, ◌-◌, ◌*◌, ◌/◌, ◌%◌, ◌^◌, ◌≤◌, ◌<◌, String, Bool, true, false, not, ◌&&◌, ◌||◌,
  Option, none, some, List, [], ◌∷◌, ◌++◌, map, append_assoc, append-nil, map-append, ◌≡◌, ◌≢◌, ◌↔◌,
  refl, sym, ap, ◌∙◌, subst, fun_ext, ◌⊎◌, inl, inr, arith, Result, ok, err, Slice, elems, Bytes,
  append_copy, next_uint64, Outcome, returned, panicked, Handler, recovered, Duration, pos, negsuc,
  second, Option-cases, Bool-cases, str_eq, str_eq_iff, str_eq_refl, str_eq_of_ne, if◌then◌else◌,
  ltb, leb, ◌==◌, ltb→lt, lt→ltb, leb→le, ==_iff, length, length-append, length-map, length-keep-le,
  keep, any, all, All, All-keep,
}
use dwcs.GoMap.{GoMap, lookup, insert, delete, adjust, values, keys}
use dwcs.Tags.{TagSet, add_tags, remove_tags, has}

pub data SessionError : Type 0 where
  session_not_found session_closed : SessionError

unfoldable pub error_text : SessionError → String
error_text session_not_found = "session not found"
error_text session_closed = "session is closed"

pub record Session : Type 0 where
  pub id : String
  pub connected_at : ℕ
  pub tags : TagSet
  pub outbox : List Bytes
  pub closed : Bool

abbrev pub outbox_buffer : ℕ
outbox_buffer = 512

unfoldable pub new_session : String → ℕ → Session
new_session id now = record { id = id; connected_at = now; tags = []; outbox = []; closed = false }

unfoldable pub subscribe : Slice String → Session → Session
subscribe tags s = record s { tags = add_tags (elems tags) s.tags }

unfoldable pub unsubscribe : Slice String → Session → Session
unsubscribe tags s = record s { tags = remove_tags (elems tags) s.tags }

unfoldable pub has_tag : Session → String → Bool
has_tag s tag = has tag s.tags

unfoldable pub tags_of : Session → List String
tags_of s = keys s.tags

-- A send that does not wait: a message for a full outbox is dropped, with no error.
unfoldable pub send : Bytes → Session → Result SessionError (Unit {0}) × Session
send msg s =
    if s.closed
    then (err session_closed, s)
    else if ltb (length s.outbox) outbox_buffer
    then (ok tt, record s { outbox = s.outbox ++ msg ∷ [] })
    else (ok tt, s)

-- <-s.Outbox(), which takes the oldest message; `none` is where the receiver waits.
unfoldable pub receive : Session → Option Bytes × Session
receive s = elim s.outbox [ [] ↦ (none, s) | msg ∷ rest ↦ (some msg, record s { outbox = rest }) ]

unfoldable pub close : Session → Session
close s = if s.closed then s else record s { closed = true }

unfoldable pub is_closed : Session → Bool
is_closed s = s.closed

pub record Manager : Type 0 where
  pub sessions : GoMap Session

unfoldable pub new_manager : Manager
new_manager = record { sessions = [] }

unfoldable pub add : String → ℕ → Manager → Session × Manager
unfolding new_session
add id now m = let s = new_session id now in (s, record m { sessions = insert id s m.sessions })

unfoldable pub get : Manager → String → Result SessionError Session
get m id = elim (lookup id m.sessions) [ none ↦ err session_not_found | some s ↦ ok s ]

-- The session object that Remove takes out of the map is closed.
unfoldable pub remove : Manager → String → Option Session × Manager
unfolding close
remove m id = elim (lookup id m.sessions) [
  | none ↦ (none, m)
  | some s ↦ (some (close s), record m { sessions = delete id m.sessions })
]

module _ {X : Type 0} where
  -- The loop of Each, in which `fn` also acts on `x`.
  unfoldable pub each_entry : (Session → X → Session × X) → GoMap Session → X → GoMap Session × X
  each_entry fn [] x = ([], x)
  each_entry fn ((k, s) ∷ m) x =
      let (s', x') = fn s x in let (m', x'') = each_entry fn m x' in ((k, s') ∷ m', x'')

  unfoldable pub each : (Session → X → Session × X) → Manager → X → Manager × X
  each fn m x =
      let (sessions', x') = each_entry fn m.sessions x in (record m { sessions = sessions' }, x')

session_matches : Session → List String → Bool
session_matches s [] = false
session_matches s (t ∷ ts) = let rest = session_matches s ts in if has_tag s t then true else rest

unfoldable pub session_matches_tags : Session → Slice String → Bool
unfolding session_matches
session_matches_tags s tags = session_matches s (elems tags)

-- len(tags) == 0 || sessionMatchesTags(s, tags)
unfoldable pub is_addressed : Slice String → Session → Bool
is_addressed none s = true
is_addressed (some []) s = true
is_addressed (some (t ∷ ts)) s = session_matches_tags s (some (t ∷ ts))

unfoldable pub broadcast_to : Slice String → Bytes → Session → Unit {0} → Session × Unit {0}
broadcast_to tags msg s u = (if is_addressed tags s then (send msg s).1 else s, u)

unfoldable pub broadcast : Slice String → Bytes → Manager → Manager
unfolding each broadcast_to
broadcast tags msg m = (each (broadcast_to tags msg) m tt).0

unfoldable pub broadcast_all : Bytes → Manager → Manager
broadcast_all msg m = broadcast none msg m

unfoldable pub count : Manager → ℕ
count m = length m.sessions

-- sess.Send on a session that Get returned.
unfoldable pub send_to : String → Bytes → Manager → Manager
send_to id msg m = record m { sessions = adjust id (λ s. (send msg s).1) m.sessions }
