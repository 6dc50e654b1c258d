-- ===== src/World/Listing.antt =====
-- World.List and the callbacks.
use dwcs.Base.{
  String, List, [], ◌∷◌, map, ◌≡◌, refl, ap, ◌∙◌, fun_ext, Slice, elems, returned, Handler,
  recovered, keep,
}
use dwcs.GoMap.{values}
use dwcs.Tags.{wanted, passes_filter-to_set}
use dwcs.World.{World, Object, ChangeEvent, clone_object, list, snapshot, fire}
use dwcs.World.Apply.{clone_object_lem}

clones : (os : List Object) → map clone_object os ≡ os
clones [] = refl
clones (o ∷ os) = rw (clone_object_lem o, clones os)

module _ {S : Type 0} where
  -- List returns the objects that share a tag with the filter, every object if the filter is empty
  -- or nil; Snapshot returns them all.
  pub list-eq-keep :
      (w : World S) (filter_tags : Slice String)
      → (list w filter_tags ≡ keep (λ o. wanted (elems filter_tags) o.tags) (values w.objects))
        × (snapshot w ≡ values w.objects)
  unfolding list snapshot
  list-eq-keep w filter_tags = (
    clones _
        ∙ ap (λ p. keep p (values w.objects))
            (fun_ext λ (o : Object). passes_filter-to_set o.tags filter_tags),
    clones (values w.objects),
  )

  -- A handler that does the same, and never panics.
  abbrev pub quiet : Handler ChangeEvent S → Handler ChangeEvent S
  quiet h evt s = returned (recovered (h evt s))

  -- A panic in one callback stops no other: firing is firing the same callbacks made quiet.
  pub fire-quiet :
      (evt : ChangeEvent) (hs : List (Handler ChangeEvent S)) (s : S)
      → fire evt hs s ≡ fire evt (map quiet hs) s
  unfolding fire recovered
  fire-quiet evt [] s = refl
  fire-quiet evt (h ∷ hs) s = fire-quiet evt hs (recovered (h evt s))
