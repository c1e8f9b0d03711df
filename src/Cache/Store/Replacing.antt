-- ===== src/Cache/Store/Replacing.antt =====
-- completeUpload on a slot that has an entry, and completeUpload as a whole.
use multirunner.Common.{
  ℕ, ◌≡◌, refl, ◌∙◌, true, false, not, some, inl, inr, ◌==◌, if◌then◌else◌, if_elim, Table, delete,
  length, Bool-cases, Option-cases, arith,
}
use multirunner.Cache.Store.{
  Slot, Upload, Entry, Parts, Store, upload_by_slot, parts_of, contiguous, count_parts,
  entry_by_slot, repoint, id_taken, replace_entry, promote, reject, complete_found, complete_upload,
  Completed, no_parts, part_mismatch,
}
use multirunner.Cache.Store.Rows.{parts_of-delete}
use multirunner.Cache.Store.Invariant.{IsUnused, IsValid}
use multirunner.Cache.Store.Completing.{drop_upload-IsUnused, insert_entry-IsValid}
use multirunner.Cache.Store.Repointing.{
  id_taken-NotTaken, repoint-Apart, repoint-IsUnused, entry_by_slot-Kept, repoint-IsWhole,
}

-- The blobs after the prior entry's folder went.
abbrev pub without_old : ℕ → ℕ → Table Parts → Table Parts
without_old old folder b = if old == folder then b else delete old b

pub without_old-folder :
    (old folder : ℕ) (b : Table Parts)
    → parts_of folder (without_old old folder b) ≡ parts_of folder b
without_old-folder old folder b = elim (Bool-cases (old == folder)) [
  | inl h ↦ rw h
  | inr h ↦ rw h (parts_of-delete folder old b ∙ rw h)
]

without_old-other :
    (old folder f : ℕ) (b : Table Parts)
    → (old == f) ≡ false
    → parts_of f (without_old old folder b) ≡ parts_of f b
without_old-other old folder f b d = elim (Bool-cases (old == folder)) [
  | inl h ↦ rw h
  | inr h ↦ rw h (parts_of-delete f old b ∙ rw d)
]

module _ (s : Slot) (updated used : ℕ) where
  replace_entry-IsValid :
      (folder count : ℕ) (st : Store) {old : Entry}
      → length (parts_of folder st.blobs) ≡ count
      → contiguous count (parts_of folder st.blobs) ≡ true
      → entry_by_slot s st.entries ≡ some old
      → IsValid st
      → IsValid (replace_entry s folder count updated used old st).1
  unfolding replace_entry
  replace_entry-IsValid folder count st {old} n c found v =
      if_elim (λ (r : Completed × Store). IsValid r.1) (id_taken s folder st.entries) _ _ (λ _. v)
        λ h. record {
          whole =
              repoint-IsWhole s folder count updated used st.blobs
                (without_old old.id folder st.blobs) old.id
                (without_old-folder old.id folder st.blobs)
                (λ f d. without_old-other old.id folder f st.blobs d) n c st.entries
                (entry_by_slot-Kept s folder count updated used st.entries found v.apart) v.whole;
          apart =
              repoint-Apart s folder count updated used st.entries v.apart
                (id_taken-NotTaken s folder count updated used st.entries h);
          unused =
              drop_upload-IsUnused folder (IsUnused st.entries)
                (IsUnused (repoint s folder count updated used st.entries)) st.uploads
                (λ id d u. repoint-IsUnused s folder count updated used id st.entries d u) v.unused;
        }

  promote-IsValid :
      (folder count : ℕ) (st : Store)
      → length (parts_of folder st.blobs) ≡ count
      → contiguous count (parts_of folder st.blobs) ≡ true
      → IsValid st
      → IsValid (promote s folder count updated used st).1
  unfolding promote
  promote-IsValid folder count st n c v = elim (Option-cases (entry_by_slot s st.entries)) [
    | inl e ↦ rw (e, promote) (insert_entry-IsValid s folder count updated used st n c e v)
    | inr (old, e) ↦ rw (e, promote) (replace_entry-IsValid folder count st n c e v)
  ]

  reject-IsValid : (c : Completed) (id : ℕ) (st : Store) → IsValid st → IsValid (reject c id st).1
  unfolding reject
  reject-IsValid c id st v = record {
    whole = v.whole;
    apart = v.apart;
    unused =
        drop_upload-IsUnused id (IsUnused st.entries) (IsUnused st.entries) st.uploads (λ _ _ u. u)
          v.unused;
  }

  complete_found-IsValid :
      (up : Upload) (st : Store) → IsValid st → IsValid (complete_found s updated used up st).1
  unfolding complete_found count_parts
  complete_found-IsValid up st v =
      let parts = parts_of up.id st.blobs in
      if_elim Good (up.finished_parts == 0) _ _ (λ _. reject-IsValid no_parts up.id st v)
        λ _.
          if_elim Good (not (up.started_parts == up.finished_parts)) _ _ (λ _. refused)
            λ _.
              if_elim Good (not (length parts == up.finished_parts)) _ _ (λ _. refused)
                λ n.
                  if_elim Good (not (contiguous up.finished_parts parts)) _ _ (λ _. refused)
                    λ c. promote-IsValid up.id (length parts) st refl (rest n c) v
    where
      Good : Completed × Store → Type 0
      Good r = IsValid r.1

      refused : IsValid (reject part_mismatch up.id st).1
      refused = reject-IsValid part_mismatch up.id st v

      rest :
          not (length (parts_of up.id st.blobs) == up.finished_parts) ≡ false
          → not (contiguous up.finished_parts (parts_of up.id st.blobs)) ≡ false
          → contiguous (length (parts_of up.id st.blobs)) (parts_of up.id st.blobs) ≡ true
      rest n c = ground arith

  pub complete_upload-IsValid :
      (st : Store) → IsValid st → IsValid (complete_upload s updated used st).1
  unfolding complete_upload
  complete_upload-IsValid st v = elim (Option-cases (upload_by_slot s st.uploads)) [
    | inl e ↦ rw (e, complete_upload) v
    | inr (up, e) ↦ rw (e, complete_upload) (complete_found-IsValid up st v)
  ]
