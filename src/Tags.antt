-- ===== src/Tags.antt =====
-- toSet and tagsIntersect, which internal/world/world.go and internal/task/task.go both declare.
use dwcs.Base.{
  String, Bool, true, false, not, ◌&&◌, ◌||◌, none, some, List, [], ◌∷◌, ◌≡◌, refl, ◌∙◌, arith,
  Slice, elems, str_eq, if◌then◌else◌, any,
}
use dwcs.GoMap.{GoMap, lookup, insert, delete}
use dwcs.GoMap.Laws.{lookup-insert, lookup-delete}

-- map[string]struct{}
abbrev pub TagSet : Type 0
TagSet = GoMap (Unit {0})

unfoldable pub add_tags : List String → TagSet → TagSet
add_tags [] s = s
add_tags (t ∷ ts) s = add_tags ts (insert t tt s)

unfoldable pub to_set : Slice String → TagSet
unfolding add_tags
to_set tags = add_tags (elems tags) []

-- _, ok := s[t]
unfoldable pub has : String → TagSet → Bool
has t s = elim (lookup t s) [ none ↦ false | some u ↦ true ]

some_tag_in : List String → TagSet → Bool
some_tag_in [] filter_set = false
some_tag_in (t ∷ ts) filter_set =
    let rest = some_tag_in ts filter_set in if has t filter_set then true else rest

unfoldable pub tags_intersect : Slice String → TagSet → Bool
unfolding some_tag_in
tags_intersect tags filter_set = some_tag_in (elems tags) filter_set

-- len(tagSet) == 0 || tagsIntersect(tags, tagSet)
unfoldable pub passes_filter : Slice String → TagSet → Bool
passes_filter tags [] = true
passes_filter tags (e ∷ s) = tags_intersect tags (e ∷ s)

-- The independent description: some tag of one list equals some tag of the other.
unfoldable pub shares_tag : List String → List String → Bool
shares_tag ts fs = any (λ t. any (λ f. str_eq f t) fs) ts

pub has-insert : (t u : String) (s : TagSet) → has t (insert u tt s) ≡ (str_eq u t || has t s)
unfolding has
has-insert t u s = ground (arith, lookup-insert u t tt s)

pub has-add_tags :
    (t : String) (ts : List String) (s : TagSet)
    → has t (add_tags ts s) ≡ (any (λ u. str_eq u t) ts || has t s)
unfolding add_tags any
has-add_tags t [] s = refl
has-add_tags t (u ∷ ts) s = rw (has-add_tags t ts (insert u tt s), has-insert t u s) (ground arith)

pub has-to_set :
    (t : String) (fs : Slice String) → has t (to_set fs) ≡ any (λ u. str_eq u t) (elems fs)
unfolding to_set
has-to_set t fs = rw (has-add_tags t (elems fs) []) (unfold has lookup in ground arith)

some_tag_in-to_set :
    (ts : List String) (fs : Slice String) → some_tag_in ts (to_set fs) ≡ shares_tag ts (elems fs)
unfolding some_tag_in shares_tag any
some_tag_in-to_set [] fs = refl
some_tag_in-to_set (t ∷ ts) fs = ground (arith, has-to_set t fs, some_tag_in-to_set ts fs)

pub tags_intersect-to_set :
    (ts fs : Slice String) → tags_intersect ts (to_set fs) ≡ shares_tag (elems ts) (elems fs)
unfolding tags_intersect
tags_intersect-to_set ts fs = some_tag_in-to_set (elems ts) fs

-- A filter with no tags lets everything pass; any other asks for a common tag.
abbrev pub wanted : List String → Slice String → Bool
wanted [] ts = true
wanted (f ∷ fs) ts = shares_tag (elems ts) (f ∷ fs)

insert-ne-nil :
    (t : String) (s : TagSet) (ts : Slice String)
    → passes_filter ts (insert t tt s) ≡ tags_intersect ts (insert t tt s)
unfolding passes_filter insert
insert-ne-nil t [] ts = refl
insert-ne-nil t ((u, x) ∷ s) ts = ground arith

add_tags-passes :
    (fs : List String) (e : String) (s : TagSet) (ts : Slice String)
    → passes_filter ts (add_tags fs (insert e tt s))
      ≡ tags_intersect ts (add_tags fs (insert e tt s))
unfolding add_tags
add_tags-passes [] e s ts = insert-ne-nil e s ts
add_tags-passes (f ∷ fs) e s ts = add_tags-passes fs f (insert e tt s) ts

pub passes_filter-to_set :
    (ts fs : Slice String) → passes_filter ts (to_set fs) ≡ wanted (elems fs) ts
passes_filter-to_set ts none = unfold to_set add_tags passes_filter in refl
passes_filter-to_set ts (some []) = unfold to_set add_tags passes_filter in refl
passes_filter-to_set ts (some (f ∷ fs)) =
    let at_add : passes_filter ts (to_set (some (f ∷ fs)))
        ≡ tags_intersect ts (to_set (some (f ∷ fs))) =
      unfold to_set add_tags in add_tags-passes fs f [] ts in
    at_add ∙ tags_intersect-to_set ts (some (f ∷ fs))

unfoldable pub remove_tags : List String → TagSet → TagSet
remove_tags [] s = s
remove_tags (t ∷ ts) s = remove_tags ts (delete t s)

has-delete : (t u : String) (s : TagSet) → has t (delete u s) ≡ (not (str_eq u t) && has t s)
unfolding has
has-delete t u s = ground (arith, lookup-delete u t s)

pub has-remove_tags :
    (t : String) (ts : List String) (s : TagSet)
    → has t (remove_tags ts s) ≡ (not (any (λ u. str_eq u t) ts) && has t s)
unfolding remove_tags any
has-remove_tags t [] s = refl
has-remove_tags t (u ∷ ts) s =
    rw (has-remove_tags t ts (delete u s), has-delete t u s) (ground arith)
