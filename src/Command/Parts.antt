-- ===== src/Command/Parts.antt =====
-- What the parsers of the command line return: the parts between the commas, trimmed.
use dwcs.Base.{
  String, Bool, false, not, ◌||◌, some, List, [], ◌∷◌, map, ◌≡◌, ◌≢◌, refl, ap, ◌∙◌, inl, inr,
  arith, elems, Bool-cases, str_eq, str_eq_iff, ◌==◌, keep, All,
}
use Prim.Native.Char.{Char, char, code}
use Prim.Native.String.{[] as no_text, ◌∷◌ as then_text, ◌++◌ as join_text}
use text.Mathlib.TextLemmas.{nil-append, cons-append, cons≢nil}
use dwcs.Metrics.Log.{join}
use dwcs.Command.{
  comma, is_space, put_first, split, trim_left, put_before, trim_right, trim_space, is_filled,
  filled_parts, parse_tags, parse_peer_addrs,
}

abbrev pub has_comma : String → Bool
has_comma no_text = false
has_comma (then_text c s) = (code c == comma) || has_comma s

split-single : (p : String) → has_comma p ≡ false → split p ≡ p ∷ []
unfolding split put_first
split-single no_text plain = refl
split-single (then_text c p) plain = ground (arith, split-single p (ground (arith, plain)), plain)

comma_first : (s : String) → join_text "," s ≡ then_text (char 44 tt) s
comma_first s = cons-append (char 44 tt) no_text s ∙ ap (then_text (char 44 tt)) (nil-append s)

split-join_text :
    (p s : String) → has_comma p ≡ false → split (join_text p (join_text "," s)) ≡ p ∷ split s
unfolding split put_first
split-join_text no_text s plain = ap split (nil-append (join_text "," s) ∙ comma_first s)
split-join_text (then_text c p) s plain =
    ap split (cons-append c p (join_text "," s))
    ∙ ground (arith, split-join_text p s (ground (arith, plain)), plain)

-- Parts without a comma, put together by commas, are split again.
split-join :
    (p : String) (ps : List String)
    → All (λ x. has_comma x ≡ false) (p ∷ ps)
    → split (join "," (p ∷ ps)) ≡ p ∷ ps
unfolding join
split-join p [] plain = split-single p plain.0
split-join p (q ∷ ps) plain =
    split-join_text p (join "," (q ∷ ps)) plain.0 ∙ ap (λ xs. p ∷ xs) (split-join q ps plain.1)

filled_parts_lem :
    (ps : List String) → filled_parts ps ≡ keep (λ p. not (str_eq p "")) (map trim_space ps)
unfolding filled_parts keep is_filled
filled_parts_lem [] = refl
filled_parts_lem (p ∷ ps) = ground (arith, filled_parts_lem ps)

-- A list of parts without commas, put together by commas to a text that is not empty, is read back as
-- these parts in their order, each without the white space around it, and without those of which
-- nothing is left.
pub parse_peer_addrs-join :
    (p : String) (ps : List String)
    → All (λ x. has_comma x ≡ false) (p ∷ ps)
    → join "," (p ∷ ps) ≢ ""
    → parse_peer_addrs (join "," (p ∷ ps))
      ≡ some (keep (λ x. not (str_eq x "")) (map trim_space (p ∷ ps)))
unfolding parse_peer_addrs
parse_peer_addrs-join p ps plain some_text = ground (
  arith,
  str_eq_iff (join "," (p ∷ ps)) "",
  some_text,
  split-join p ps plain,
  filled_parts_lem (p ∷ ps),
  ap filled_parts (split-join p ps plain),
)

split-plain : (s : String) → All (λ x. has_comma x ≡ false) (split s)
unfolding split
split-plain no_text = (refl, tt)
split-plain (then_text c s) = elim (Bool-cases (code c == comma)) [
  | inl e ↦ rw (e, split) (refl, split-plain s)
  | inr e ↦ rw (e, split) (first c (split s) e (split-plain s))
]
  where
    first :
        (c : Char) (ps : List String)
        → (code c == comma) ≡ false
        → All (λ x. has_comma x ≡ false) ps
        → All (λ x. has_comma x ≡ false) (put_first c ps)
    first c [] e h = unfold put_first in (ground (arith, e), tt)
    first c (p ∷ ps) e h = unfold put_first in (ground (arith, e, h.0), h.1)

trim_left-plain : (s : String) → has_comma s ≡ false → has_comma (trim_left s) ≡ false
unfolding trim_left
trim_left-plain no_text plain = refl
trim_left-plain (then_text c s) plain =
    ground (arith, plain, trim_left-plain s (ground (arith, plain)))

put_before-plain :
    (c : Char) (t : String)
    → (code c == comma) ≡ false
    → has_comma t ≡ false
    → has_comma (put_before c t) ≡ false
unfolding put_before
put_before-plain c no_text e plain = elim (Bool-cases (is_space (code c))) [
  | inl w ↦ rw (w, put_before) refl
  | inr w ↦ rw (w, put_before) (ground (arith, e))
]
put_before-plain c (then_text d t) e plain = ground (arith, e, plain)

trim_right-plain : (s : String) → has_comma s ≡ false → has_comma (trim_right s) ≡ false
unfolding trim_right
trim_right-plain no_text plain = refl
trim_right-plain (then_text c s) plain =
    put_before-plain c (trim_right s) (ground (arith, plain))
      (trim_right-plain s (ground (arith, plain)))

put_before_fixed :
    (c : Char) (t : String) → trim_right t ≡ t → trim_right (put_before c t) ≡ put_before c t
unfolding put_before trim_right
put_before_fixed c no_text fixed = elim (Bool-cases (is_space (code c))) [
  | inl w ↦ rw (w, put_before) refl
  | inr w ↦ rw (w, put_before) (ground (arith, w))
]
put_before_fixed c (then_text d t) fixed = ap (put_before c) fixed

trim_right_twice : (s : String) → trim_right (trim_right s) ≡ trim_right s
unfolding trim_right
trim_right_twice no_text = refl
trim_right_twice (then_text c s) = put_before_fixed c (trim_right s) (trim_right_twice s)

-- The text begins with no white space.
abbrev StartsBlack : String → Type 0
StartsBlack no_text = Unit {0}
StartsBlack (then_text c s) = is_space (code c) ≡ false

trim_left-StartsBlack : (s : String) → StartsBlack (trim_left s)
unfolding trim_left
trim_left-StartsBlack no_text = tt
trim_left-StartsBlack (then_text c s) = elim (Bool-cases (is_space (code c))) [
  | inl w ↦ rw (w, trim_left) (trim_left-StartsBlack s)
  | inr w ↦ rw (w, trim_left) w
]

trim_left_black : (s : String) → StartsBlack s → trim_left s ≡ s
unfolding trim_left
trim_left_black no_text black = refl
trim_left_black (then_text c s) black = ground (arith, black)

put_before-StartsBlack :
    (c : Char) (t : String) → is_space (code c) ≡ false → StartsBlack (put_before c t)
unfolding put_before
put_before-StartsBlack c no_text black = rw (black, put_before) black
put_before-StartsBlack c (then_text d t) black = black

trim_right-StartsBlack : (s : String) → StartsBlack s → StartsBlack (trim_right s)
unfolding trim_right
trim_right-StartsBlack no_text black = tt
trim_right-StartsBlack (then_text c s) black = put_before-StartsBlack c (trim_right s) black

trim_space_twice : (s : String) → trim_space (trim_space s) ≡ trim_space s
unfolding trim_space
trim_space_twice s =
    ap trim_right (
      trim_left_black (trim_right (trim_left s))
        (trim_right-StartsBlack (trim_left s) (trim_left-StartsBlack s)))
    ∙ trim_right_twice (trim_left s)

-- No white space around it, not empty, and no comma in it.
abbrev pub IsPart : String → Type 0
IsPart p = (trim_space p ≡ p) × (p ≢ "") × (has_comma p ≡ false)

filled_parts-IsPart :
    (ps : List String) → All (λ x. has_comma x ≡ false) ps → All IsPart (filled_parts ps)
unfolding filled_parts is_filled
filled_parts-IsPart [] h = tt
filled_parts-IsPart (p ∷ ps) h = elim (Bool-cases (str_eq (trim_space p) "")) [
  | inl e ↦ rw (e, filled_parts, is_filled) (filled_parts-IsPart ps h.1)
  | inr e ↦
      rw (e, filled_parts, is_filled)
        (
          (
            trim_space_twice p,
            (λ q. ground (arith, q, str_eq_iff (trim_space p) "", e)),
            plain p h.0,
          ),
          filled_parts-IsPart ps h.1,
        )
]
  where
    plain : (p : String) → has_comma p ≡ false → has_comma (trim_space p) ≡ false
    plain p h = unfold trim_space in trim_right-plain (trim_left p) (trim_left-plain p h)

-- Whatever the text of the command line, each tag and each address that is read from it has no white
-- space around it, is not empty and has no comma in it.
pub parse_tags-parts :
    (s : String) → All IsPart (elems (parse_tags s)) × All IsPart (elems (parse_peer_addrs s))
unfolding parse_tags parse_peer_addrs
parse_tags-parts s = (
  elim (Bool-cases (str_eq s "" || str_eq s "*")) [
    | inl e ↦ rw (e, parse_tags) ((star, (λ q. cons≢nil q), refl), tt)
    | inr e ↦ rw (e, parse_tags) (filled_parts-IsPart (split s) (split-plain s))
  ],
  elim (Bool-cases (str_eq s "")) [
    | inl e ↦ rw (e, parse_peer_addrs) tt
    | inr e ↦ rw (e, parse_peer_addrs) (filled_parts-IsPart (split s) (split-plain s))
  ],
)
  where
    star : trim_space "*" ≡ "*"
    star = unfold trim_space trim_left trim_right put_before is_space in refl
