-- ===== src/Cache/Store/Completing.antt =====
-- completeUpload keeps every entry whole.
use multirunner.Common.{
  All-append, ℕ, ◌≡◌, true, false, none, List, [], ◌∷◌, ◌++◌, inl, inr, ◌==◌, if_elim, is_some,
  length, All, Bool-cases, arith, subst,
}
use multirunner.Cache.Store.{
  Slot, slot_eq, Upload, Entry, Store, drop_upload, parts_of, contiguous, entry_by_slot,
  entry_by_id, new_entry, insert_entry, Completed,
}
use multirunner.Cache.Store.Rows.{slot_eq_refl, slot_eq→≡, IsWhole, IsApart, Apart}
use multirunner.Cache.Store.Invariant.{IsUnused, IsValid}

pub flip : (a d : ℕ) → (a == d) ≡ false → (d == a) ≡ false
flip a d h = ground arith

-- Rows that a WHERE clause does not find.
entry_by_id-IsUnused :
    (id : ℕ) (es : List Entry) → is_some (entry_by_id id es) ≡ false → IsUnused es id
unfolding entry_by_id
entry_by_id-IsUnused id [] h = tt
entry_by_id-IsUnused id (e ∷ es) h = elim (Bool-cases (e.id == id)) [
  | inl x ↦ cc (rw x at h)
  | inr x ↦ (x, entry_by_id-IsUnused id es (rw x at h))
]

abbrev OtherSlot : Slot → Entry → Type 0
OtherSlot s e = slot_eq e.slot s ≡ false

entry_by_slot-other :
    (s : Slot) (es : List Entry) → entry_by_slot s es ≡ none → All (OtherSlot s) es
unfolding entry_by_slot
entry_by_slot-other s [] h = tt
entry_by_slot-other s (e ∷ es) h = elim (Bool-cases (slot_eq e.slot s)) [
  | inl x ↦ cc (rw x at h)
  | inr x ↦ (x, entry_by_slot-other s es (rw x at h))
]

pub drop_upload-IsUnused :
    (folder : ℕ) (P Q : ℕ → Type 0) (us : List Upload)
    → ((id : ℕ) → (id == folder) ≡ false → P id → Q id)
    → All (λ (u : Upload). P u.id) us
    → All (λ (u : Upload). Q u.id) (drop_upload folder us)
unfolding drop_upload
drop_upload-IsUnused folder P Q [] f a = tt
drop_upload-IsUnused folder P Q (u ∷ us) f a = elim (Bool-cases (u.id == folder)) [
  | inl x ↦ rw x (drop_upload-IsUnused folder P Q us f a.1)
  | inr x ↦ rw x (f u.id x a.0, drop_upload-IsUnused folder P Q us f a.1)
]

Apart-append :
    (es : List Entry) (n : Entry) → Apart es → All (λ e. IsApart e n) es → Apart (es ++ n ∷ [])
Apart-append [] n a h = (tt, tt)
Apart-append (e ∷ es) n a h =
    (All-append (IsApart e) es (n ∷ []) a.0 (h.0, tt), Apart-append es n a.1 h.1)

new-IsApart :
    (s : Slot) (folder count updated used : ℕ) (es : List Entry)
    → IsUnused es folder
    → All (OtherSlot s) es
    → All (λ e. IsApart e (new_entry s folder count updated used)) es
unfolding new_entry
new-IsApart s folder count updated used [] u o = tt
new-IsApart s folder count updated used (e ∷ es) u o = (
  record { ids_differ = flip e.id folder u.0; slots_differ = slot_flip e.slot s o.0 },
  new-IsApart s folder count updated used es u.1 o.1,
)
  where
    slot_flip : (a b : Slot) → slot_eq a b ≡ false → slot_eq b a ≡ false
    slot_flip a b h = elim (Bool-cases (slot_eq b a)) [
      | inl x ↦ cc (subst (λ c. slot_eq c b ≡ true) (slot_eq→≡ b a x) (slot_eq_refl b))
      | inr x ↦ x
    ]

module _ (s : Slot) (folder count updated used : ℕ) (st : Store) where
  pub insert_entry-IsValid :
      length (parts_of folder st.blobs) ≡ count
      → contiguous count (parts_of folder st.blobs) ≡ true
      → entry_by_slot s st.entries ≡ none
      → IsValid st
      → IsValid (insert_entry s folder count updated used st).1
  unfolding insert_entry
  insert_entry-IsValid n c absent v =
      if_elim (λ (r : Completed × Store). IsValid r.1) (is_some (entry_by_id folder st.entries)) _ _
        (λ _. v)
        (λ h.
          let u = entry_by_id-IsUnused folder st.entries h in
          let entry = new_entry s folder count updated used in
          record {
            whole = All-append (IsWhole st.blobs) st.entries (entry ∷ []) v.whole (entry-whole, tt);
            apart = Apart-append st.entries entry v.apart (
                new-IsApart s folder count updated used st.entries u
                  (entry_by_slot-other s st.entries absent));
            unused =
                drop_upload-IsUnused folder (IsUnused st.entries)
                  (IsUnused (st.entries ++ entry ∷ [])) st.uploads
                  (λ id d a.
                    All-append (λ (e : Entry). (e.id == id) ≡ false) st.entries (entry ∷ []) a
                      (entry-id id d, tt))
                  v.unused;
          })
    where
      entry-whole : IsWhole st.blobs (new_entry s folder count updated used)
      entry-whole = unfold new_entry in record { counted = n; complete = c }

      entry-id :
          (id : ℕ)
          → (id == folder) ≡ false
          → ((new_entry s folder count updated used).id == id) ≡ false
      entry-id id d = unfold new_entry in flip id folder d
