-- ===== src/Cache/Store/Invariant.antt =====
-- Every entry that can be served has all of its parts, whatever is uploaded, completed or evicted.
use multirunner.Common.{
  All-append, ℕ, ◌≡◌, ◌∙◌, Bool, true, false, List, [], ◌∷◌, inl, inr, ◌==◌, ==_iff, if_elim,
  is_some, Text, Table, All, Bool-cases, arith, subst,
}
use multirunner.Cache.Store.{
  Slot, Upload, Entry, Parts, Store, Body, upload_by_id, upload_by_slot, new_upload, create_upload,
  bump_started, bump_finished, start_part, finish_part, upload_part, parts_of, write_part, Created,
}
use multirunner.Cache.Store.Rows.{parts_of-put, IsWhole, IsWhole-cong, Apart}

-- The id is no entry's.
abbrev pub IsUnused : List Entry → ℕ → Type 0
IsUnused es id = All (λ (e : Entry). (e.id == id) ≡ false) es

pub record IsValid (st : Store) : Type 0 where
  pub whole : All (IsWhole st.blobs) st.entries
  pub apart : Apart st.entries
  pub unused : All (λ (u : Upload). IsUnused st.entries u.id) st.uploads

-- Changing one folder leaves the entries of the others whole.
module _ (b c : Table Parts) (folder : ℕ) where
  others-IsWhole :
      ((f : ℕ) → (folder == f) ≡ false → parts_of f c ≡ parts_of f b)
      → (es : List Entry) → IsUnused es folder
      → All (IsWhole b) es
      → All (IsWhole c) es
  others-IsWhole same [] u w = tt
  others-IsWhole same (e ∷ es) u w =
      (IsWhole-cong b c e (same e.id (flip e.id folder u.0)) w.0, others-IsWhole same es u.1 w.1)
    where
      flip : (a d : ℕ) → (a == d) ≡ false → (d == a) ≡ false
      flip a d h = ground arith

IsUnused-upload :
    (id : ℕ) (us : List Upload) (es : List Entry)
    → is_some (upload_by_id id us) ≡ true
    → All (λ (u : Upload). IsUnused es u.id) us
    → IsUnused es id
unfolding upload_by_id
IsUnused-upload id [] es h a = cc
IsUnused-upload id (u ∷ us) es h a = elim (Bool-cases (u.id == id)) [
  | inl e ↦ subst (IsUnused es) ((==_iff u.id id).0 e) a.0
  | inr e ↦ IsUnused-upload id us es (rw e at h) a.1
]

-- Statements that keep the ids keep them unused.
bump_started-IsUnused :
    (P : ℕ → Type 0) (id : ℕ) (us : List Upload)
    → All (λ (u : Upload). P u.id) us
    → All (λ (u : Upload). P u.id) (bump_started id us)
unfolding bump_started
bump_started-IsUnused P id [] a = tt
bump_started-IsUnused P id (u ∷ us) a = (
  if_elim (λ (v : Upload). P v.id) (u.id == id) _ _ (λ _. a.0) (λ _. a.0),
  bump_started-IsUnused P id us a.1,
)

bump_finished-IsUnused :
    (P : ℕ → Type 0) (id : ℕ) (us : List Upload)
    → All (λ (u : Upload). P u.id) us
    → All (λ (u : Upload). P u.id) (bump_finished id us)
unfolding bump_finished
bump_finished-IsUnused P id [] a = tt
bump_finished-IsUnused P id (u ∷ us) a = (
  if_elim (λ (v : Upload). P v.id) (u.id == id) _ _ (λ _. a.0) (λ _. a.0),
  bump_finished-IsUnused P id us a.1,
)

start_part-IsValid :
    (id index : ℕ) (bytes : Text) (st : Store)
    → is_some (upload_by_id id st.uploads) ≡ true
    → IsValid st
    → IsValid (start_part id index bytes st)
unfolding start_part write_part
start_part-IsValid id index bytes st known v = record {
  whole =
      others-IsWhole st.blobs _ id (λ f h. parts_of-put f id _ st.blobs ∙ rw h) st.entries
        (IsUnused-upload id st.uploads st.entries known v.unused) v.whole;
  apart = v.apart;
  unused = bump_started-IsUnused (IsUnused st.entries) id st.uploads v.unused;
}

finish_part-IsValid : (id : ℕ) (st : Store) → IsValid st → IsValid (finish_part id st)
unfolding finish_part
finish_part-IsValid id st v = record {
  whole = v.whole;
  apart = v.apart;
  unused = bump_finished-IsUnused (IsUnused st.entries) id st.uploads v.unused;
}

pub upload_part-IsValid :
    (id index : ℕ) (body : Body) (st : Store)
    → IsValid st
    → IsValid (upload_part id index body st).1
unfolding upload_part
upload_part-IsValid id index body st v =
    if_elim (λ (r : Bool × Store). IsValid r.1) (is_some (upload_by_id id st.uploads)) _ _
      (λ known.
        let w = start_part-IsValid id index body.bytes st known v in
        if_elim (λ (r : Bool × Store). IsValid r.1) body.whole _ _ (λ _. finish_part-IsValid id _ w)
          (λ _. w))
      (λ _. v)

-- randomID must not give the id of an entry.
pub create_upload-IsValid :
    (id : ℕ) (s : Slot) (st : Store)
    → IsUnused st.entries id
    → IsValid st
    → IsValid (create_upload id s st).1
unfolding create_upload new_upload
create_upload-IsValid id s st u v =
    if_elim (λ (r : Created × Store). IsValid r.1) (is_some (upload_by_slot s st.uploads)) _ _
      (λ _. v)
      λ _.
        if_elim (λ (r : Created × Store). IsValid r.1) (is_some (upload_by_id id st.uploads)) _ _
          (λ _. v)
          λ _. record {
            whole = v.whole;
            apart = v.apart;
            unused =
                All-append (λ (w : Upload). IsUnused st.entries w.id) st.uploads _ v.unused (u, tt);
          }
