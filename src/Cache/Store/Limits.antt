-- ===== src/Cache/Store/Limits.antt =====
-- What is left after evict.
use multirunner.Common.{
  ℕ, ◌+◌, ◌-◌, ◌≤◌, ◌<◌, ◌≡◌, refl, ap, true, ◌||◌, List, [], ◌∷◌, ◌⊎◌, inl, inr, ◌==◌, ==_iff,
  ==_refl, if◌then◌else◌, if_elim, any, ltb, leb, Table, lookup, delete, All, Bool-cases, arith,
  subst, IsMap, KeyFree, IsMap-delete, delete-KeyFree, select,
}
use multirunner.Cache.Store.{Entry, Parts, Store, parts_of}
use multirunner.Cache.Store.Evict.{
  drop_entry, delete_entry, parts_size, folder_size, total_blob_size, ids_of, insert_by_use, by_use,
  delete_all, shrink, evict_old, evict_large, evict,
}

pub folder_size-nil : (f : ℕ) → folder_size f [] ≡ 0
unfolding folder_size parts_of lookup parts_size
folder_size-nil f = refl

pub folder_size-cons :
    (f g : ℕ) (ps : Parts) (b : Table Parts)
    → folder_size f ((g, ps) ∷ b) ≡ (if g == f then parts_size ps else folder_size f b)
unfolding folder_size parts_of lookup
folder_size-cons f g ps b = ground arith

-- Deleting a folder frees its size.
total-delete :
    (f : ℕ) (b : Table Parts)
    → IsMap b
    → total_blob_size (delete f b) + folder_size f b ≡ total_blob_size b
unfolding total_blob_size delete
total-delete f [] m = omega (arith, folder_size-nil f)
total-delete f ((g, ps) ∷ b) m = elim (Bool-cases (g == f)) [
  | inl h ↦
      let free : KeyFree f b = subst (λ k. KeyFree k b) ((==_iff g f).0 h) m.0 in
      ground (arith, h, folder_size-cons f g ps b, ap total_blob_size (delete-KeyFree f b free))
  | inr h ↦ ground (arith, h, folder_size-cons f g ps b, total-delete f b m.1)
]

-- Every entry is still to come in the list of ids.
abbrev Covered : List ℕ → List Entry → Type 0
Covered ids es = All (λ (e : Entry). any (λ i. i == e.id) ids ≡ true) es

Covered-nil : (es : List Entry) → Covered [] es → es ≡ []
Covered-nil [] c = refl
Covered-nil (e ∷ es) c = cc

Covered-drop :
    (id : ℕ) (ids : List ℕ) (es : List Entry)
    → Covered (id ∷ ids) es
    → Covered ids (drop_entry id es)
unfolding drop_entry
Covered-drop id ids [] c = tt
Covered-drop id ids (e ∷ es) c = elim (Bool-cases (e.id == id)) [
  | inl h ↦ rw h (Covered-drop id ids es c.1)
  | inr h ↦ rw h (ground arith, Covered-drop id ids es c.1)
]

shrink-bound :
    (m : ℕ) (ids : List ℕ) (total n : ℕ) (st : Store)
    → IsMap st.blobs
    → total ≡ total_blob_size st.blobs
    → Covered ids st.entries
    → let u = (shrink m ids total n st).1 in (total_blob_size u.blobs ≤ m) ⊎ (u.entries ≡ [])
unfolding shrink delete_entry
shrink-bound m [] total n st d t c = inr (Covered-nil st.entries c)
shrink-bound m (id ∷ ids) total n st d t c =
    if_elim (λ (r : ℕ × Store). (total_blob_size r.1.blobs ≤ m) ⊎ (r.1.entries ≡ [])) (leb total m)
      _ _ (λ h. inl (ground arith))
      λ h.
        shrink-bound m ids (total - folder_size id st.blobs) (n + 1) (delete_entry id st)
          (IsMap-delete id st.blobs d) (omega (arith, total-delete id st.blobs d, t))
          (Covered-drop id ids st.entries c)

Covered-more : (id : ℕ) (ids : List ℕ) (es : List Entry) → Covered ids es → Covered (id ∷ ids) es
Covered-more id ids [] c = tt
Covered-more id ids (e ∷ es) c = (ground arith, Covered-more id ids es c.1)

insert-covers :
    (e x : Entry) (es : List Entry)
    → (e.id == x.id) || any (λ i. i == x.id) (ids_of es) ≡ true
    → any (λ i. i == x.id) (ids_of (insert_by_use e es)) ≡ true
unfolding insert_by_use ids_of
insert-covers e x [] h = h
insert-covers e x (f ∷ fs) h = ground (arith, insert-covers e x fs)

insert-Covered :
    (e : Entry) (es xs : List Entry)
    → Covered (ids_of es) xs
    → Covered (ids_of (insert_by_use e es)) xs
insert-Covered e es [] c = tt
insert-Covered e es (x ∷ xs) c =
    (insert-covers e x es (ground (arith, c.0)), insert-Covered e es xs c.1)

by_use-Covered : (es : List Entry) → Covered (ids_of (by_use es)) es
unfolding by_use
by_use-Covered [] = tt
by_use-Covered (e ∷ es) = (
  insert-covers e e (by_use es) (rw ==_refl),
  insert-Covered e (by_use es) es (by_use-Covered es),
)

delete_all-IsMap :
    (ids : List ℕ) (n : ℕ) (st : Store) → IsMap st.blobs → IsMap (delete_all ids n st).1.blobs
unfolding delete_all delete_entry
delete_all-IsMap [] n st d = d
delete_all-IsMap (id ∷ ids) n st d =
    delete_all-IsMap ids (n + 1) (delete_entry id st) (IsMap-delete id st.blobs d)

evict_old-IsMap : (older : ℕ) (st : Store) → IsMap st.blobs → IsMap (evict_old older st).1.blobs
unfolding evict_old
evict_old-IsMap older st d =
    if_elim (λ (r : ℕ × Store). IsMap r.1.blobs) (ltb 0 older) _ _
      (λ _. delete_all-IsMap (ids_of (select (λ e. ltb e.last_used_at older) st.entries)) 0 st d)
      (λ _. d)

-- With a size limit above 0, evict leaves blobs within it, or no entry at all. No two folders of the
-- store have one name.
pub evict-bound :
    (older m : ℕ) (st : Store)
    → 0 < m
    → IsMap st.blobs
    → let u = (evict older m st).1 in (total_blob_size u.blobs ≤ m) ⊎ (u.entries ≡ [])
unfolding evict evict_large
evict-bound older m st p d =
    let (n, st') = evict_old older st in
    let d' = evict_old-IsMap older st d in
    if_elim Good (ltb 0 m) _ _
      (λ _.
        if_elim Good (ltb m (total_blob_size st'.blobs)) _ _
          (λ _.
            shrink-bound m (ids_of (by_use st'.entries)) (total_blob_size st'.blobs) n st' d' refl
              (by_use-Covered st'.entries))
          (λ h. inl (ground arith)))
      (λ h. absurd (ground arith))
  where
    Good : ℕ × Store → Type 0
    Good r = (total_blob_size r.1.blobs ≤ m) ⊎ (r.1.entries ≡ [])
