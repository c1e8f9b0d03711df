-- ===== src/Cache/Store/Orphans.antt =====
-- A folder that no entry owns: the parts of an upload that is not complete, or was rejected.
use multirunner.Common.{
  ℕ, ◌+◌, ◌≤◌, ◌<◌, ◌≡◌, refl, ◌∙◌, Bool, false, List, [], ◌∷◌, inl, inr, ◌==◌, if_elim, ltb, leb,
  Table, All, arith, IsMap, select,
}
use multirunner.Cache.Store.{Entry, Parts, Store}
use multirunner.Cache.Store.Evict.{
  delete_entry, folder_size, total_blob_size, ids_of, insert_by_use, by_use, delete_all, shrink,
  evict_old, evict_large, evict,
}
use multirunner.Cache.Store.Rows.{parts_of-delete}
use multirunner.Cache.Store.Invariant.{IsUnused}
use multirunner.Cache.Store.Evicting.{drop_entry-All}
use multirunner.Cache.Store.Limits.{folder_size-nil, folder_size-cons, evict-bound}

folder-le-total : (f : ℕ) (b : Table Parts) → folder_size f b ≤ total_blob_size b
unfolding total_blob_size
folder-le-total f [] = omega (arith, folder_size-nil f)
folder-le-total f ((g, ps) ∷ b) = ground (arith, folder_size-cons f g ps b, folder-le-total f b)

-- No entry owns the folder.
module _ (f : ℕ) where
  abbrev Misses : List ℕ → Type 0
  Misses ids = All (λ (i : ℕ). (i == f) ≡ false) ids

  delete_entry-folder :
      (id : ℕ) (st : Store)
      → (id == f) ≡ false
      → folder_size f (delete_entry id st).blobs ≡ folder_size f st.blobs
  unfolding delete_entry folder_size
  delete_entry-folder id st h = rw (parts_of-delete f id st.blobs, h) refl

  delete_all-folder :
      (ids : List ℕ) (n : ℕ) (st : Store)
      → Misses ids
      → folder_size f (delete_all ids n st).1.blobs ≡ folder_size f st.blobs
  unfolding delete_all
  delete_all-folder [] n st h = refl
  delete_all-folder (id ∷ ids) n st h =
      delete_all-folder ids (n + 1) (delete_entry id st) h.1 ∙ delete_entry-folder id st h.0

  shrink-folder :
      (m : ℕ) (ids : List ℕ) (total n : ℕ) (st : Store)
      → Misses ids
      → folder_size f (shrink m ids total n st).1.blobs ≡ folder_size f st.blobs
  unfolding shrink
  shrink-folder m [] total n st h = refl
  shrink-folder m (id ∷ ids) total n st h =
      if_elim (λ (r : ℕ × Store). folder_size f r.1.blobs ≡ folder_size f st.blobs) (leb total m) _
        _ (λ _. refl)
        λ _. shrink-folder m ids _ _ (delete_entry id st) h.1 ∙ delete_entry-folder id st h.0

  insert-Misses :
      (e : Entry) (es : List Entry)
      → (e.id == f) ≡ false
      → Misses (ids_of es)
      → Misses (ids_of (insert_by_use e es))
  unfolding insert_by_use ids_of
  insert-Misses e [] p h = (p, tt)
  insert-Misses e (x ∷ es) p h =
      if_elim (λ (xs : List Entry). Misses (ids_of xs)) (leb e.last_used_at x.last_used_at) _ _
        (λ _. (p, h)) (λ _. (h.0, insert-Misses e es p h.1))

  by_use-Misses : (es : List Entry) → IsUnused es f → Misses (ids_of (by_use es))
  unfolding by_use ids_of
  by_use-Misses [] u = tt
  by_use-Misses (e ∷ es) u = insert-Misses e (by_use es) u.0 (by_use-Misses es u.1)

  select-Misses :
      (p : Entry → Bool) (es : List Entry) → IsUnused es f → Misses (ids_of (select p es))
  unfolding ids_of
  select-Misses p [] u = tt
  select-Misses p (e ∷ es) u =
      if_elim (λ (xs : List Entry). Misses (ids_of xs)) (p e) _ _
        (λ _. (u.0, select-Misses p es u.1)) (λ _. select-Misses p es u.1)

  delete_all-IsUnused :
      (ids : List ℕ) (n : ℕ) (st : Store)
      → IsUnused st.entries f
      → IsUnused (delete_all ids n st).1.entries f
  unfolding delete_all delete_entry
  delete_all-IsUnused [] n st u = u
  delete_all-IsUnused (id ∷ ids) n st u =
      delete_all-IsUnused ids (n + 1) (delete_entry id st)
        (drop_entry-All id (λ (e : Entry). (e.id == f) ≡ false) st.entries u)

  -- What a half of evict leaves: the folder, and still no entry of it.
  abbrev Left : Store → ℕ × Store → Type 0
  Left st r = (folder_size f r.1.blobs ≡ folder_size f st.blobs) × IsUnused r.1.entries f

  evict_old-Left : (older : ℕ) (st : Store) → IsUnused st.entries f → Left st (evict_old older st)
  unfolding evict_old
  evict_old-Left older st u =
      if_elim (Left st) (ltb 0 older) _ _
        (λ _.
          let ids = ids_of (select (λ e. ltb e.last_used_at older) st.entries) in
          (
            delete_all-folder ids 0 st (select-Misses (λ e. ltb e.last_used_at older) st.entries u),
            delete_all-IsUnused ids 0 st u,
          ))
        (λ _. (refl, u))

  evict_large-folder :
      (m n : ℕ) (st : Store)
      → IsUnused st.entries f
      → folder_size f (evict_large m n st).1.blobs ≡ folder_size f st.blobs
  unfolding evict_large
  evict_large-folder m n st u =
      if_elim Same (ltb 0 m) _ _
        (λ _.
          if_elim Same (ltb m (total_blob_size st.blobs)) _ _
            (λ _.
              shrink-folder m (ids_of (by_use st.entries)) (total_blob_size st.blobs) n st
                (by_use-Misses st.entries u))
            (λ _. refl))
        (λ _. refl)
    where
      Same : ℕ × Store → Type 0
      Same r = folder_size f r.1.blobs ≡ folder_size f st.blobs

  evict-folder :
      (older m : ℕ) (st : Store)
      → IsUnused st.entries f
      → folder_size f (evict older m st).1.blobs ≡ folder_size f st.blobs
  unfolding evict
  evict-folder older m st u =
      let (n, st') = evict_old older st in
      let (same, u') = evict_old-Left older st u in evict_large-folder m n st' u' ∙ same

-- With a size limit above 0 that one folder alone exceeds, which is no entry's, evict removes every
-- entry and leaves that folder with its bytes, so the limit is still exceeded. No two folders of the
-- store have one name.
pub evict-orphan :
    (older m f : ℕ) (st : Store)
    → 0 < m
    → IsMap st.blobs
    → IsUnused st.entries f
    → m < folder_size f st.blobs
    → ((evict older m st).1.entries ≡ []) × (m < total_blob_size (evict older m st).1.blobs)
evict-orphan older m f st p d u large =
    let same = evict-folder f older m st u in
    let bound = folder-le-total f (evict older m st).1.blobs in
    (
      elim (evict-bound older m st p d) [
        | inl h ↦ absurd (omega (arith, same, bound, h))
        | inr h ↦ h
      ],
      omega (arith, same, bound),
    )
