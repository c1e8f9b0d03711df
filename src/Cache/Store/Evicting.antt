-- ===== src/Cache/Store/Evicting.antt =====
-- evict keeps entries whole, and leaves what the limits allow.
use multirunner.Common.{
  ℕ, ◌+◌, ◌≡◌, ◌∙◌, false, List, [], ◌∷◌, inl, inr, ◌==◌, if_elim, ltb, leb, Table, delete, All,
  Bool-cases, select,
}
use multirunner.Cache.Store.{Upload, Entry, Parts, Store}
use multirunner.Cache.Store.Evict.{
  drop_entry, delete_entry, total_blob_size, ids_of, by_use, delete_all, shrink, evict_old,
  evict_large, evict,
}
use multirunner.Cache.Store.Rows.{parts_of-delete, IsWhole, IsWhole-cong, IsApart, Apart}
use multirunner.Cache.Store.Invariant.{IsUnused, IsValid}
use multirunner.Cache.Store.Completing.{flip}

module _ (id : ℕ) where
  pub drop_entry-All : (P : Entry → Type 0) (es : List Entry) → All P es → All P (drop_entry id es)
  unfolding drop_entry
  drop_entry-All P [] a = tt
  drop_entry-All P (e ∷ es) a = elim (Bool-cases (e.id == id)) [
    | inl h ↦ rw h (drop_entry-All P es a.1)
    | inr h ↦ rw h (a.0, drop_entry-All P es a.1)
  ]

  drop_entry-Apart : (es : List Entry) → Apart es → Apart (drop_entry id es)
  unfolding drop_entry
  drop_entry-Apart [] a = tt
  drop_entry-Apart (e ∷ es) a = elim (Bool-cases (e.id == id)) [
    | inl h ↦ rw h (drop_entry-Apart es a.1)
    | inr h ↦ rw h (drop_entry-All (IsApart e) es a.0, drop_entry-Apart es a.1)
  ]

  drop_entry-IsWhole :
      (b : Table Parts) (es : List Entry)
      → All (IsWhole b) es
      → All (IsWhole (delete id b)) (drop_entry id es)
  unfolding drop_entry
  drop_entry-IsWhole b [] w = tt
  drop_entry-IsWhole b (e ∷ es) w = elim (Bool-cases (e.id == id)) [
    | inl h ↦ rw h (drop_entry-IsWhole b es w.1)
    | inr h ↦ rw h (
      IsWhole-cong b (delete id b) e (parts_of-delete e.id id b ∙ rw (flip e.id id h)) w.0,
      drop_entry-IsWhole b es w.1,
    )
  ]

  drop-IsUnused :
      (us : List Upload) (es : List Entry)
      → All (λ (u : Upload). IsUnused es u.id) us
      → All (λ (u : Upload). IsUnused (drop_entry id es) u.id) us
  drop-IsUnused [] es a = tt
  drop-IsUnused (u ∷ us) es a =
      (drop_entry-All (λ (e : Entry). (e.id == u.id) ≡ false) es a.0, drop-IsUnused us es a.1)

  delete_entry-IsValid : (st : Store) → IsValid st → IsValid (delete_entry id st)
  unfolding delete_entry
  delete_entry-IsValid st v = record {
    whole = drop_entry-IsWhole st.blobs st.entries v.whole;
    apart = drop_entry-Apart st.entries v.apart;
    unused = drop-IsUnused st.uploads st.entries v.unused;
  }

delete_all-IsValid :
    (ids : List ℕ) (n : ℕ) (st : Store) → IsValid st → IsValid (delete_all ids n st).1
unfolding delete_all
delete_all-IsValid [] n st v = v
delete_all-IsValid (id ∷ ids) n st v =
    delete_all-IsValid ids (n + 1) (delete_entry id st) (delete_entry-IsValid id st v)

shrink-IsValid :
    (m : ℕ) (ids : List ℕ) (total n : ℕ) (st : Store)
    → IsValid st
    → IsValid (shrink m ids total n st).1
unfolding shrink
shrink-IsValid m [] total n st v = v
shrink-IsValid m (id ∷ ids) total n st v =
    if_elim (λ (r : ℕ × Store). IsValid r.1) (leb total m) _ _ (λ _. v)
      λ _. shrink-IsValid m ids _ _ (delete_entry id st) (delete_entry-IsValid id st v)

evict_old-IsValid : (older : ℕ) (st : Store) → IsValid st → IsValid (evict_old older st).1
unfolding evict_old
evict_old-IsValid older st v =
    if_elim (λ (r : ℕ × Store). IsValid r.1) (ltb 0 older) _ _
      (λ _. delete_all-IsValid (ids_of (select (λ e. ltb e.last_used_at older) st.entries)) 0 st v)
      (λ _. v)

evict_large-IsValid : (m n : ℕ) (st : Store) → IsValid st → IsValid (evict_large m n st).1
unfolding evict_large
evict_large-IsValid m n st v =
    if_elim (λ (r : ℕ × Store). IsValid r.1) (ltb 0 m) _ _
      (λ _.
        if_elim (λ (r : ℕ × Store). IsValid r.1) (ltb m (total_blob_size st.blobs)) _ _
          (λ _. shrink-IsValid m (ids_of (by_use st.entries)) (total_blob_size st.blobs) n st v)
          (λ _. v))
      (λ _. v)

pub evict-IsValid : (older m : ℕ) (st : Store) → IsValid st → IsValid (evict older m st).1
unfolding evict
evict-IsValid older m st v =
    let (n, st') = evict_old older st in evict_large-IsValid m n st' (evict_old-IsValid older st v)
