-- ===== src/Metrics/Log.antt =====
-- logEvent, orderedKeys and formatValue: the text of a log line. strconv and time.Duration.String
-- are parameters; the log package, which adds the date and writes the line, is left out.
use Prim.Native.String.{◌++◌ as join_text}
use dwcs.Base.{
  ℕ, String, Bool, true, false, not, ◌&&◌, ◌||◌, none, some, List, [], ◌∷◌, ◌++◌, map, ◌≡◌, refl,
  ap, inl, inr, arith, elems, Bool-cases, str_eq, str_eq_iff, keep, any,
}
use dwcs.GoMap.{GoMap, lookup, keys}
use dwcs.Metrics.{Value, text, number, duration, texts, LogEntry}

abbrev pub preferred_order : List String
preferred_order =
    "task" ∷ "owner" ∷ "session" ∷ "object" ∷ "reason" ∷ "compute_ms" ∷ "lease" ∷ "prev_ver"
    ∷ "new_ver" ∷ "subscribers" ∷ "objects" ∷ "tasks_released" ∷ "tags" ∷ []

-- _, ok := m[k]
unfoldable pub has_key : GoMap Value → String → Bool
has_key m k = elim (lookup k m) [ none ↦ false | some v ↦ true ]

unfoldable pub ordered_keys_by : List String → GoMap Value → List String
unfolding has_key
ordered_keys_by preferred m =
    let first = keep (has_key m) preferred in
    first ++ keep (λ k. not (any (λ j. str_eq j k) first)) (keys m)

unfoldable pub ordered_keys : GoMap Value → List String
unfolding ordered_keys_by
ordered_keys m = ordered_keys_by preferred_order m

-- strings.Join, and the loop of formatValue with its commas.
unfoldable pub join : String → List String → String
join sep [] = ""
join sep (s ∷ []) = s
join sep (s ∷ t ∷ ts) = join_text s (join_text sep (join sep (t ∷ ts)))

module _ (format_int : ℕ → String) (duration_string : ℕ → String) where
  unfoldable pub format_value : Value → String
  unfolding join
  format_value (text s) = s
  format_value (number n) = format_int n
  format_value (duration d) = duration_string d
  format_value (texts ts) = join "," (elems ts)

  unfoldable pub format_field : GoMap Value → String → String
  unfolding format_value
  format_field m k = elim (lookup k m) [
    | none ↦ ""
    | some v ↦ join_text k (join_text "=" (format_value v))
  ]

  unfoldable pub log_line : LogEntry → String
  unfolding format_field ordered_keys join
  log_line e =
      join " "
        (join_text "[" (join_text e.kind "]") ∷ map (format_field e.fields) (ordered_keys e.fields))

any-append : (p : String → Bool) (xs ys : List String) → any p (xs ++ ys) ≡ (any p xs || any p ys)
unfolding any
any-append p [] ys = refl
any-append p (x ∷ xs) ys = ground (arith, any-append p xs ys)

any-keep : (p q : String → Bool) (xs : List String) → any p (keep q xs) ≡ any (λ x. p x && q x) xs
unfolding any keep
any-keep p q [] = refl
any-keep p q (x ∷ xs) = ground (arith, any-keep p q xs)

-- A test that sees only strings equal to `k`.
any-at :
    (k : String) (q : String → Bool) (xs : List String)
    → any (λ x. str_eq x k && q x) xs ≡ (any (λ x. str_eq x k) xs && q k)
unfolding any
any-at k q [] = refl
any-at k q (x ∷ xs) = elim (Bool-cases (str_eq x k)) [
  | inr other ↦ ground (arith, any-at k q xs)
  | inl same ↦ ground (arith, ap q ((str_eq_iff x k).0 same), any-at k q xs)
]

any-keys : (k : String) (m : GoMap Value) → any (λ j. str_eq j k) (keys m) ≡ has_key m k
unfolding any has_key lookup
any-keys k [] = refl
any-keys k ((j, v) ∷ m) = ground (arith, any-keys k m)

-- A log line shows each field once the map has it, and nothing else: whatever keys are preferred,
-- the ordered keys are the keys of the map.
pub ordered_keys_complete :
    (preferred : List String) (m : GoMap Value) (k : String)
    → any (λ j. str_eq j k) (ordered_keys_by preferred m) ≡ has_key m k
unfolding ordered_keys_by
ordered_keys_complete preferred m k =
    let here : String → Bool = λ j. str_eq j k in
    let first = keep (has_key m) preferred in
    let late : String → Bool = λ j. not (any (λ i. str_eq i j) first) in
    ground (
      arith,
      any-append here first (keep late (keys m)),
      any-keep here (has_key m) preferred,
      any-at k (has_key m) preferred,
      any-keep here late (keys m),
      any-at k late (keys m),
      any-keys k m,
    )
