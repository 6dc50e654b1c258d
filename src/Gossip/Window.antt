-- ===== src/Gossip/Window.antt =====
-- How long a message is remembered.
use dwcs.Base.{
  ℕ, ◌+◌, ◌≤◌, String, true, false, not, some, List, [], ◌∷◌, ◌≡◌, inl, inr, arith, Bytes,
  Option-cases, str_eq_iff, ltb, keep, All,
}
use dwcs.GoMap.{lookup}
use dwcs.GoMap.Laws.{lookup-insert, lookup-keep, lookup-insert_self}
use dwcs.Protocol.{Envelope}
use dwcs.Gossip.{Gossip, gc, message_id, should_forward}

-- A message is offered, or the window is swept, at a time.
pub data Call : Type 0 where
  offers : Envelope → ℕ → Call
  collects : ℕ → Call

-- No sweep after `until`.
abbrev pub Spares : ℕ → Call → Type 0
Spares until (offers env now) = Unit {0}
Spares until (collects now) = now ≤ until

module _ (text : Bytes → String) where
  unfoldable pub step : Gossip → Call → Gossip
  step g (offers env now) = (should_forward text env now g).1
  step g (collects now) = gc now g

  unfoldable pub run : Gossip → List Call → Gossip
  run g [] = g
  run g (c ∷ cs) = run (step g c) cs

-- The message is in the window, with a time that no sweep by `until` takes for old.
abbrev pub Remembers : String → ℕ → Gossip → Type 0
Remembers id until g = (t : ℕ) × (lookup id g.seen ≡ some t) × (until ≤ t + g.max_age)

module _ (text : Bytes → String) where
  step-Remembers :
      (id : String) (until : ℕ) (g : Gossip) (c : Call)
      → Spares until c
      → Remembers id until g
      → Remembers id until (step text g c)
  unfolding step should_forward gc
  step-Remembers id until g (offers env now) spares (t, found, late) =
      elim (Option-cases (lookup (message_id text env) g.seen)) [
        | inl missing ↦ (
          t,
          ground (
            arith,
            lookup-insert (message_id text env) id now g.seen,
            str_eq_iff (message_id text env) id,
          ),
          ground arith,
        )
        | inr (u, seen) ↦ (t, ground arith, ground arith)
      ]
  step-Remembers id until g (collects now) spares (t, found, late) =
      (t, lookup-keep id t (λ u. not (ltb (u + g.max_age) now)) g.seen found (ground arith), late)

  run-Remembers :
      (id : String) (until : ℕ) (g : Gossip) (cs : List Call)
      → All (Spares until) cs
      → Remembers id until g
      → Remembers id until (run text g cs)
  unfolding run
  run-Remembers id until g [] spares kept = kept
  run-Remembers id until g (c ∷ cs) spares kept =
      run-Remembers id until (step text g c) cs spares.1 (step-Remembers id until g c spares.0 kept)

  -- A message that was offered is seen.
  pub should_forward_again :
      (g : Gossip) (env again : Envelope) (now later : ℕ)
      → message_id text again ≡ message_id text env
      → let g₁ = (should_forward text env now g).1 in
        should_forward text again later g₁ ≡ (false, g₁)
  unfolding should_forward
  should_forward_again g env again now later same =
      elim (Option-cases (lookup (message_id text env) g.seen)) [
        | inl missing ↦ ground (arith, lookup-insert_self (message_id text env) now g.seen)
        | inr (u, seen) ↦ ground arith
      ]

  -- Any message is forwarded at most once in maxAge: once ShouldForward has let it through at time
  -- `now`, it lets no message with the same id through, whatever is offered in between, as long as
  -- the window is not swept later than maxAge after `now`.
  pub should_forward_once :
      (g : Gossip) (env again : Envelope) (now later : ℕ) (cs : List Call)
      → (should_forward text env now g).0 ≡ true
      → message_id text again ≡ message_id text env
      → All (Spares (now + g.max_age)) cs
      → (should_forward text again later (run text (should_forward text env now g).1 cs)).0 ≡ false
  unfolding should_forward
  should_forward_once g env again now later cs through same spares =
      let g₁ = (should_forward text env now g).1 in
      let noted : Remembers (message_id text env) (now + g.max_age) g₁ =
        elim (Option-cases (lookup (message_id text env) g.seen)) [
          | inl missing ↦ (
            now,
            ground (arith, lookup-insert_self (message_id text env) now g.seen),
            ground arith,
          )
          | inr (u, seen) ↦ absurd (ground arith)
        ] in
      let (t, found, late) =
        run-Remembers (message_id text env) (now + g.max_age) g₁ cs spares noted in
      ground arith

sweep-All :
    (now age : ℕ) (xs : List (String × ℕ))
    → All (λ e. now ≤ e.1 + age) (keep (λ e. not (ltb (e.1 + age) now)) xs)
unfolding keep
sweep-All now age [] = tt
sweep-All now age (x ∷ xs) = ground (arith, sweep-All now age xs)

-- After a sweep the window holds no message that is older than maxAge, and a message in the window
-- that is not older is still there.
pub gc-All :
    (now : ℕ) (g : Gossip) (id : String) (t : ℕ)
    → All (λ e. now ≤ e.1 + g.max_age) (gc now g).seen
      × (lookup id g.seen ≡ some t → now ≤ t + g.max_age → lookup id (gc now g).seen ≡ some t)
unfolding gc
gc-All now g id t = (
  sweep-All now g.max_age g.seen,
  λ found young. lookup-keep id t (λ u. not (ltb (u + g.max_age) now)) g.seen found (ground arith),
)
