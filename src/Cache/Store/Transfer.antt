-- ===== src/Cache/Store/Transfer.antt =====
-- What was uploaded is what is downloaded.
use multirunner.Common.{
  zero, suc, ◌++◌, Text, lookup, ℕ, ◌<◌, ◌≡◌, refl, ap, sym, ◌∙◌, true, false, none, some, List, [],
  ◌∷◌, ◌++◌, inl, inr, ◌==◌, ==_refl, is_some, length, Bool-cases, Option-cases, arith, subst,
  IsMap,
}
use multirunner.Cache.Store.{
  Slot, slot_eq, Entry, Parts, Store, upload_by_id, upload_by_slot, create_upload, parts_of,
  contiguous, count_parts, entry_by_slot, entry_by_id, repoint_one, repoint, id_taken,
  replace_entry, new_entry, insert_entry, promote, complete_found, complete_upload, Completed,
  completed, read_parts, download,
}
use multirunner.Cache.Store.Invariant.{IsUnused}
use multirunner.Cache.Store.Sending.{
  row, upload_all, Filled, upload_all-Filled, create_upload-Filled,
}
use multirunner.Cache.Store.Replacing.{without_old-folder}

-- The entry that a completed upload leaves.
entry_by_id-append :
    (id : ℕ) (es : List Entry) (e : Entry)
    → IsUnused es id
    → e.id ≡ id
    → entry_by_id id (es ++ e ∷ []) ≡ some e
unfolding entry_by_id
entry_by_id-append id [] e u h = ground (arith, h)
entry_by_id-append id (f ∷ es) e u h = rw u.0 (entry_by_id-append id es e u.1 h)

entry_by_id-IsUnused : (id : ℕ) (es : List Entry) → IsUnused es id → entry_by_id id es ≡ none
unfolding entry_by_id
entry_by_id-IsUnused id [] u = refl
entry_by_id-IsUnused id (e ∷ es) u = rw u.0 (entry_by_id-IsUnused id es u.1)

id_taken-IsUnused :
    (s : Slot) (id : ℕ) (es : List Entry) → IsUnused es id → id_taken s id es ≡ false
unfolding id_taken
id_taken-IsUnused s id [] u = refl
id_taken-IsUnused s id (e ∷ es) u = ground (arith, u.0, id_taken-IsUnused s id es u.1)

repoint-find :
    (s : Slot) (id count updated used : ℕ) (es : List Entry) {old : Entry}
    → entry_by_slot s es ≡ some old
    → IsUnused es id
    → (e : Entry) × (entry_by_id id (repoint s id count updated used es) ≡ some e)
      × (e.part_count ≡ count)
unfolding entry_by_slot entry_by_id repoint repoint_one
repoint-find s id count updated used [] h u = cc
repoint-find s id count updated used (e ∷ es) h u = elim (Bool-cases (slot_eq e.slot s)) [
  | inl k ↦ (repoint_one s id count updated used e, rw (k, ==_refl id) refl, rw k refl)
  | inr k ↦
      let (x, p, q) = repoint-find s id count updated used es (rw k at h) u.1 in
      (x, rw (k, u.0) p, q)
]

-- The upload of these parts is complete, and a download gives them.
abbrev pub Serves : ℕ → Parts → Completed × Store → Type 0
Serves id ps r = (r.0 ≡ completed id) × (download id r.1 ≡ some (read_parts (length ps) ps))

module _ (id : ℕ) (s : Slot) (updated used : ℕ) (ps : Parts) (st : Store) where
  insert-Serves :
      parts_of id st.blobs ≡ ps
      → IsUnused st.entries id
      → Serves id ps (insert_entry s id (length ps) updated used st)
  unfolding insert_entry new_entry download
  insert-Serves f u = rw (entry_by_id-IsUnused id st.entries u) (
    refl,
    rw
        (
          entry_by_id-append id st.entries (new_entry s id (length ps) updated used) u refl,
          f,
          download,
        )
        refl,
  )

  replace-Serves :
      (old : Entry)
      → entry_by_slot s st.entries ≡ some old
      → parts_of id st.blobs ≡ ps
      → IsUnused st.entries id
      → Serves id ps (replace_entry s id (length ps) updated used old st)
  unfolding replace_entry download
  replace-Serves old h f u =
      let (e, p, q) = repoint-find s id (length ps) updated used st.entries h u in
      rw (id_taken-IsUnused s id st.entries u) (
        refl,
        rw (p, download, q)
            (ap (λ x. some (read_parts (length ps) x)) (without_old-folder old.id id st.blobs ∙ f)),
      )

  promote-Serves :
      parts_of id st.blobs ≡ ps
      → IsUnused st.entries id
      → Serves id ps (promote s id (length ps) updated used st)
  unfolding promote
  promote-Serves f u = elim (Option-cases (entry_by_slot s st.entries)) [
    | inl e ↦ rw (e, promote) (insert-Serves f u)
    | inr (old, e) ↦ rw (e, promote) (replace-Serves old e f u)
  ]

  complete_found-Serves :
      0 < length ps
      → contiguous (length ps) ps ≡ true
      → parts_of id st.blobs ≡ ps
      → IsUnused st.entries id
      → Serves id ps (complete_found s updated used (row id s (length ps)) st)
  unfolding complete_found count_parts
  complete_found-Serves p c f u =
      rw (nonzero (length ps) p, ==_refl (length ps), f, ==_refl (length ps), c)
        (promote-Serves f u)
    where
      nonzero : (n : ℕ) → 0 < n → (n == 0) ≡ false
      nonzero n h = ground arith

  complete_upload-Serves :
      {es : List Entry}
      → 0 < length ps
      → contiguous (length ps) ps ≡ true
      → IsUnused es id
      → Filled id (length ps) s ps es st
      → Serves id ps (complete_upload s updated used st)
  unfolding complete_upload
  complete_upload-Serves p c u f =
      rw (f.found, complete_upload)
        (complete_found-Serves p c f.filled (subst (λ es. IsUnused es id) (sym f.entries_kept) u))

-- The texts at the indices 0 to n - 1, one after the other.
abbrev pub joined : ℕ → Parts → Text
joined zero ps = []
joined (suc i) ps = joined i ps ++ elim (lookup i ps) [ none ↦ [] | some p ↦ p ]

read_parts-joined :
    (n : ℕ) (ps : Parts) → contiguous n ps ≡ true → read_parts n ps ≡ some (joined n ps)
unfolding contiguous read_parts
read_parts-joined zero ps c = refl
read_parts-joined (suc n) ps c =
    let e = read_parts-joined n ps (ground (arith, c)) in
    elim (Option-cases (lookup n ps)) [
      | inl h ↦ absurd (ground (arith, c, h))
      | inr (p, h) ↦ rw (e, h, read_parts, joined) refl
    ]

-- The upload of these parts is complete, and a download gives them joined.
abbrev pub Delivers : ℕ → Parts → Completed × Store → Type 0
Delivers id ps r = (r.0 ≡ completed id) × (download id r.1 ≡ some (some (joined (length ps) ps)))

-- Create an upload on a slot that has none, with an id that no row and no folder has; send the
-- parts 0 to n - 1 in any order, each once and whole, n at least 1; complete it. Then it is
-- completed under its id, whether or not the slot had an entry, and a download of that id gives the
-- bytes of the parts, joined in the order of their indices.
pub transfer-download :
    (id : ℕ) (s : Slot) (updated used : ℕ) (ps : Parts) (st : Store)
    → upload_by_slot s st.uploads ≡ none
    → is_some (upload_by_id id st.uploads) ≡ false
    → parts_of id st.blobs ≡ []
    → IsUnused st.entries id
    → IsMap ps
    → 0 < length ps
    → contiguous (length ps) ps ≡ true
    → Delivers id ps (complete_upload s updated used (upload_all id ps (create_upload id s st).1))
transfer-download id s updated used ps st free new blank unused m p c =
    let served = complete_upload-Serves id s updated used ps _ p c unused (
      upload_all-Filled id s st.entries ps [] 0 _ (omega arith) refl m
        (create_upload-Filled id s st free new blank)) in
    (served.0, served.1 ∙ ap (λ t. some t) (read_parts-joined (length ps) ps c))
