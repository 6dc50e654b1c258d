-- ===== src/Transport/Udp/Eviction.antt =====
-- What is left of a client that was not heard from.
use dwcs.Base.{
  ℕ, ◌-◌, ◌*◌, ◌<◌, String, Bool, true, none, some, List, [], ◌∷◌, ◌≡◌, ◌≢◌, ap, ◌∙◌, subst, inl,
  inr, arith, second, Option-cases, Bool-cases, str_eq, str_eq_iff, lt→ltb, keep, any,
}
use dwcs.GoMap.{lookup, values}
use dwcs.GoMap.Laws.{lookup-delete}
use dwcs.GoMap.Entries.{any-keep-values, All-lookup}
use dwcs.AddrBook.Laws.{lookup-drop_all}
use dwcs.Session.{Manager, remove}
use dwcs.Task.{release_all}
use dwcs.Task.Calm.{release_all_calm}
use dwcs.Task.Owners.{IsOwnedBy, IsOwnedBy-mono}
use dwcs.Backend.{Server, on_disconnect}
use dwcs.Transport.{disconnect}
use dwcs.Transport.Away.{IsAway}
use dwcs.Transport.Owners.{IsHere, IsAttended}
use dwcs.Transport.Steps.{disconnect-IsAttended}
use dwcs.Transport.Departure.{lookup-disconnect}
use dwcs.Transport.Udp.{UdpClient, UdpServer, disconnect_all, evict_expired, is_expired}
use dwcs.Transport.Udp.Served.{IsServedAt, IsClient, fewer-IsAttended, disconnect_all-IsAttended}

remove-IsAway :
    (id j : String) (m : Manager)
    → lookup j m.sessions ≡ none
    → lookup j (remove m id).1.sessions ≡ none
unfolding remove
remove-IsAway id j m away = elim (Option-cases (lookup id m.sessions)) [
  | inl missing ↦ rw (missing, remove) away
  | inr (s, found) ↦ rw (found, remove) (ground (arith, lookup-delete id j m.sessions, away))
]

module _ {P : String → Type 0} where
  disconnect-IsAway :
      (id j : String) (stamp : String → ℕ) (v : Server)
      → IsAttended P v
      → IsAway v.outer j
      → IsAway (disconnect id stamp v).outer j
  unfolding disconnect on_disconnect
  disconnect-IsAway id j stamp v a away =
      remove-IsAway id j (release_all v.registry v.outer id stamp).2.manager
        (release_all_calm (λ o. IsAway o j) v.registry (a.apart j) v.outer id stamp away)

nobody-IsAttended :
    (id : String) (stamp : String → ℕ) (v : Server)
    → IsAttended (λ j. ⊥) v
    → IsAttended (λ j. ⊥) (disconnect id stamp v)
nobody-IsAttended id stamp v a = disconnect-IsAttended id stamp v (λ j q. absurd q) a

disconnect_all-IsAway :
    (es : List UdpClient) (j : String) (stamp : String → String → ℕ) (v : Server)
    → IsAttended (λ i. ⊥) v
    → IsAway v.outer j
    → IsAway (disconnect_all es stamp v).outer j
unfolding disconnect_all
disconnect_all-IsAway [] j stamp v a away = away
disconnect_all-IsAway (e ∷ es) j stamp v a away =
    let id = e.session_id in
    disconnect_all-IsAway es j stamp (disconnect id (stamp id) v)
      (nobody-IsAttended id (stamp id) v a) (disconnect-IsAway id j (stamp id) v a away)

-- The session of each client among these is gone.
disconnect_all-gone :
    (es : List UdpClient) (j : String) (stamp : String → String → ℕ) (v : Server)
    → IsAttended (λ i. ⊥) v
    → any (λ e. str_eq e.session_id j) es ≡ true
    → IsAway (disconnect_all es stamp v).outer j
unfolding disconnect_all any
disconnect_all-gone [] j stamp v a among = absurd (ground (arith, among))
disconnect_all-gone (e ∷ es) j stamp v a among =
    let id = e.session_id in
    let v₁ = disconnect id (stamp id) v in
    elim (Bool-cases (str_eq id j)) [
      | inl same ↦ disconnect_all-IsAway es j stamp v₁ (nobody-IsAttended id (stamp id) v a) (
          subst (λ k. IsAway v₁.outer k) ((str_eq_iff id j).0 same)
            (lookup-disconnect id (stamp id) v))
      | inr other ↦
          disconnect_all-gone es j stamp v₁ (nobody-IsAttended id (stamp id) v a)
            (ground (arith, other, among))
    ]

-- At a UDP server for which IsServed holds, as it does after any history: a client that was not
-- heard from for more than 30 seconds leaves nothing behind when the server evicts, whatever
-- else is evicted with it: no client stands under its session, its session is gone, and no task
-- is owned by it.
pub evict_expired-leaves :
    (session_id : ℕ → String) (n : ℕ) (s : UdpServer) (id : String) (e : UdpClient)
    (now : String → ℕ) (stamp : String → String → ℕ)
    → IsServedAt session_id n s
    → lookup id s.book.by_id ≡ some e
    → 30 * second < now id - e.last_seen
    → let s' = evict_expired now stamp s in
      (lookup id s'.book.by_id ≡ none)
      × (lookup id s'.server.outer.manager.sessions ≡ none)
      × IsOwnedBy (λ owner. owner ≢ id) s'.server.registry
unfolding evict_expired
evict_expired-leaves session_id n s id e now stamp h found late =
    let expired : UdpClient → Bool = λ e. is_expired (now e.session_id) e in
    let gone = keep expired (values s.book.by_id) in
    let own : e.session_id ≡ id = (All-lookup _ id e s.book.by_id h.paired.forth found).0 in
    let is_late : expired e ≡ true =
      (unfold is_expired in
        ground (arith, late, ap now own, lt→ltb (30 * second) (now e.session_id - e.last_seen))) in
    let among =
      any-keep-values (λ (e : UdpClient). e.session_id) e id expired s.book.by_id found own
        is_late in
    let v₁ = disconnect_all gone stamp s.server in
    let quiet = fewer-IsAttended (IsClient s.book) (λ j. ⊥) s.server (λ j q. absurd q) h.attended in
    let away = disconnect_all-gone gone id stamp s.server quiet among in
    let a = disconnect_all-IsAttended gone stamp (IsClient s.book) s.server h.attended in
    (
      ground (
        arith,
        lookup-drop_all (λ (e : UdpClient). e.session_id) (λ e. e.addr) gone s.book id,
        among,
      ),
      away,
      IsOwnedBy-mono (IsHere v₁.outer) (λ owner. owner ≢ id) v₁.registry
          (λ owner here same. here (ap (λ j. lookup j v₁.outer.manager.sessions) same ∙ away))
          a.owners,
    )
