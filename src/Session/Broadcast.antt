-- ===== src/Session/Broadcast.antt =====
-- Manager.Broadcast and the life of a session in the manager.
use dwcs.Base.{
  ℕ, String, Bool, true, false, none, some, List, [], ◌∷◌, ◌≡◌, ◌≢◌, refl, ap, fun_ext, arith, ok,
  err, Slice, elems, Bytes, str_eq_refl, str_eq_of_ne, if◌then◌else◌, any,
}
use dwcs.GoMap.{GoMap, lookup, insert, delete, map_values}
use dwcs.GoMap.Laws.{
  lookup-map_values, lookup-adjust, map_option, lookup-insert, lookup-delete, lookup-insert_self,
}
use dwcs.Session.{
  Session, Manager, session_not_found, new_session, send, send_to, each_entry, broadcast_to,
  broadcast, is_addressed, session_matches_tags, session_matches, has_tag, add, get, remove, close,
}

each_entry-broadcast :
    (tags : Slice String) (msg : Bytes) (m : GoMap Session)
    → (each_entry (broadcast_to tags msg) m tt).0
      ≡ map_values (λ s. if is_addressed tags s then (send msg s).1 else s) m
unfolding each_entry broadcast_to map_values
each_entry-broadcast tags msg [] = refl
each_entry-broadcast tags msg ((k, s) ∷ m) = rw (each_entry-broadcast tags msg m)

matches-any : (s : Session) (ts : List String) → session_matches s ts ≡ any (has_tag s) ts
unfolding session_matches any
matches-any s [] = refl
matches-any s (t ∷ ts) = ground (arith, matches-any s ts)

-- An empty or nil list of tags addresses every session, any other those with one of its tags.
abbrev pub addressed : List String → Session → Bool
addressed [] s = true
addressed (t ∷ ts) s = any (has_tag s) (t ∷ ts)

is_addressed-eq :
    (tags : Slice String) (s : Session) → is_addressed tags s ≡ addressed (elems tags) s
unfolding is_addressed session_matches_tags
is_addressed-eq none s = refl
is_addressed-eq (some []) s = refl
is_addressed-eq (some (t ∷ ts)) s = matches-any s (t ∷ ts)

-- Broadcast sends the message once to each session that it addresses, and leaves the others, and
-- the set of sessions, as they are.
pub lookup-broadcast :
    (tags : Slice String) (msg : Bytes) (m : Manager) (id : String)
    → lookup id (broadcast tags msg m).sessions
      ≡ map_option
          (λ s. if addressed (elems tags) s then (send msg s).1 else s)
          (lookup id m.sessions)
unfolding broadcast
lookup-broadcast tags msg m id =
    rw
      (
        each_entry-broadcast tags msg m.sessions,
        lookup-map_values id (λ s. if is_addressed tags s then (send msg s).1 else s) m.sessions,
      )
      (ap (λ (f : Session → Session). map_option f (lookup id m.sessions))
        (fun_ext
          λ (s : Session). ap (λ b. if b then (send msg s).1 else s) (is_addressed-eq tags s)))

-- A session that was added is found, open and with an empty outbox; once removed it is closed and
-- not found, and a message to it goes nowhere. The other sessions are untouched.
pub add-remove :
    (id j : String) (now : ℕ) (msg : Bytes) (m : Manager)
    → let (s, m') = add id now m in
      let (gone, m'') = remove m' id in
      (get m' id ≡ ok s)
      × (s.closed ≡ false)
      × (s.outbox ≡ [])
      × (gone ≡ some (record s { closed = true }))
      × (get m'' id ≡ err session_not_found)
      × (get (send_to id msg m'') id ≡ err session_not_found)
      × (id ≢ j → lookup j m''.sessions ≡ lookup j m.sessions)
unfolding add get remove send_to close new_session
add-remove id j now msg m =
    let s = new_session id now in
    let put = lookup-insert_self id s m.sessions in
    let gone = lookup-delete id id (insert id s m.sessions) in
    let same = str_eq_refl id in
    (
      ground (arith, put),
      refl,
      refl,
      ground (arith, put),
      ground (arith, put, gone, same),
      ground (
        arith,
        put,
        gone,
        same,
        lookup-adjust id id (λ x. (send msg x).1) (delete id (insert id s m.sessions)),
      ),
      λ ne. ground (
        arith,
        put,
        lookup-delete id j (insert id s m.sessions),
        lookup-insert id j s m.sessions,
        str_eq_of_ne id j ne,
      ),
    )
