-- ===== src/Merge/Callbacks.antt =====
-- What the world's callbacks keep of the caller's state, Apply and Submit keep of it.
use dwcs.Base.{
  ℕ, suc, Option, none, some, List, [], ◌∷◌, ◌≡◌, refl, sym, ◌∙◌, subst, inl, inr, Bool-cases,
}
use dwcs.GoMap.{lookup}
use dwcs.World.{World, ChangeEvent, UpdateRequest, WorldError, fire, apply, store, check_expected}
use dwcs.Merge.{MergeFunc, Submission, apply_all, submit, merge_func}

module _ {S : Type 0} (Q : S → Type 0) where
  abbrev pub Keeps : World S → Type 0
  Keeps w = (evt : ChangeEvent) (s : S) → Q s → Q (fire evt w.handlers s)

  apply_calm :
      (w : World S) (s : S) (now : ℕ) (req : UpdateRequest)
      → Keeps w
      → Q s
      → ((apply w s now req).1.handlers ≡ w.handlers) × Q (apply w s now req).2
  unfolding apply
  apply_calm w s now req keeps q =
      split (check_expected (lookup req.object_id w.objects) req.expected_version) refl
    where
      split :
          (x : Option WorldError)
          → check_expected (lookup req.object_id w.objects) req.expected_version ≡ x
          → ((apply w s now req).1.handlers ≡ w.handlers) × Q (apply w s now req).2
      split none e = rw (e, apply) (refl, unfold store in keeps _ s q)
      split (some problem) e = rw (e, apply) (refl, q)

  apply_all_calm :
      (w : World S) (s : S) (now : ℕ → ℕ) (reqs : List UpdateRequest)
      → Keeps w
      → Q s
      → ((apply_all w s now reqs).1.handlers ≡ w.handlers) × Q (apply_all w s now reqs).2
  unfolding apply_all
  apply_all_calm w s now [] keeps q = (refl, q)
  apply_all_calm w s now (req ∷ reqs) keeps q =
      let (res, w', s') = apply w s (now 0) req in
      let one = apply_calm w s (now 0) req keeps q in
      let keeps' : Keeps w' =
        λ evt t p. subst (λ hs. Q (fire evt hs t)) (sym one.0) (keeps evt t p) in
      let rest = apply_all_calm w' s' (λ n. now (suc n)) reqs keeps' one.1 in
      (rest.0 ∙ one.0, rest.1)

  pub submit_calm :
      (fn : Option MergeFunc) (w : World S) (s : S) (now : ℕ → ℕ) (sub : Submission)
      → Keeps w
      → Q s
      → ((submit fn w s now sub).1.handlers ≡ w.handlers) × Q (submit fn w s now sub).2
  unfolding submit
  submit_calm fn w s now sub keeps q =
      let all_of = apply_all_calm w s now (merge_func fn sub).updates keeps q in
      elim (Bool-cases (merge_func fn sub).accept) [
        | inl e ↦ rw (e, submit) all_of
        | inr e ↦ rw (e, submit) (refl, q)
      ]
