-- ===== src/Cache/Store/Sending.antt =====
-- The rows and the folder of an upload while its parts are sent.
use multirunner.Common.{
  ℕ, ◌+◌, ◌≡◌, refl, ap, sym, ◌∙◌, true, false, none, some, List, [], ◌∷◌, ◌++◌, map, inl, inr,
  ◌==◌, ==_refl, if◌then◌else◌, is_some, Text, Table, put, length, Bool-cases, arith, subst, IsMap,
  KeyFree,
}
use mathlib.Core.List.{append_assoc, append-nil}
use mathlib.Core.Option.{some-injective}
use multirunner.Cache.Store.{
  Slot, slot_eq, Upload, Entry, Parts, Store, upload_by_id, upload_by_slot, new_upload,
  create_upload, bump_started, bump_finished, start_part, finish_part, write_part, upload_part,
  parts_of,
}
use multirunner.Cache.Store.Rows.{slot_eq_refl, parts_of-put}

-- The row of an upload with n whole parts.
abbrev pub row : ℕ → Slot → ℕ → Upload
row id s n = record { id = id; slot = s; started_parts = n; finished_parts = n }

slot-nil : (s : Slot) → upload_by_slot s [] ≡ none
unfolding upload_by_slot
slot-nil s = refl

slot-hit :
    (s : Slot) (v : Upload) (us : List Upload)
    → slot_eq v.slot s ≡ true
    → upload_by_slot s (v ∷ us) ≡ some v
unfolding upload_by_slot
slot-hit s v us h = rw h

slot-miss :
    (s : Slot) (v : Upload) (us : List Upload)
    → slot_eq v.slot s ≡ false
    → upload_by_slot s (v ∷ us) ≡ upload_by_slot s us
unfolding upload_by_slot
slot-miss s v us h = rw h

-- A statement on each row that keeps the slots finds the same row, changed.
map-slot :
    (s : Slot) (f : Upload → Upload)
    → ((u : Upload) → (f u).slot ≡ u.slot)
    → (us : List Upload) (u : Upload) → upload_by_slot s us ≡ some u
    → upload_by_slot s (map f us) ≡ some (f u)
map-slot s f same [] u h = cc (slot-nil s, h)
map-slot s f same (v ∷ us) u h = elim (Bool-cases (slot_eq v.slot s)) [
  | inl k ↦
      slot-hit s (f v) (map f us) (rw (same v) k)
      ∙ ap (λ o. some (f o)) (some-injective v u (sym (slot-hit s v us k) ∙ h))
  | inr k ↦
      slot-miss s (f v) (map f us) (rw (same v) k)
      ∙ map-slot s f same us u (sym (slot-miss s v us k) ∙ h)
]

append-slot :
    (s : Slot) (us : List Upload) (u : Upload)
    → upload_by_slot s us ≡ none
    → slot_eq u.slot s ≡ true
    → upload_by_slot s (us ++ u ∷ []) ≡ some u
append-slot s [] u h k = slot-hit s u [] k
append-slot s (v ∷ us) u h k = elim (Bool-cases (slot_eq v.slot s)) [
  | inl q ↦ cc (slot-hit s v us q, h)
  | inr q ↦ slot-miss s v (us ++ u ∷ []) q ∙ append-slot s us u (sym (slot-miss s v us q) ∙ h) k
]

abbrev one_started : ℕ → Upload → Upload
one_started id u = if u.id == id then record u { started_parts = u.started_parts + 1 } else u

abbrev one_finished : ℕ → Upload → Upload
one_finished id u = if u.id == id then record u { finished_parts = u.finished_parts + 1 } else u

bump_started-map : (id : ℕ) (us : List Upload) → bump_started id us ≡ map (one_started id) us
unfolding bump_started
bump_started-map id [] = refl
bump_started-map id (u ∷ us) = ap (λ vs. one_started id u ∷ vs) (bump_started-map id us)

bump_finished-map : (id : ℕ) (us : List Upload) → bump_finished id us ≡ map (one_finished id) us
unfolding bump_finished
bump_finished-map id [] = refl
bump_finished-map id (u ∷ us) = ap (λ vs. one_finished id u ∷ vs) (bump_finished-map id us)

bump_row : (id n : ℕ) (s : Slot) → one_finished id (one_started id (row id s n)) ≡ row id s (n + 1)
bump_row id n s = ground (arith, ==_refl id)

-- One whole part more.
bump-slot :
    (id n : ℕ) (s : Slot) (us : List Upload)
    → upload_by_slot s us ≡ some (row id s n)
    → upload_by_slot s (bump_finished id (bump_started id us)) ≡ some (row id s (n + 1))
bump-slot id n s us h =
    rw (bump_finished-map id (bump_started id us), bump_started-map id us)
      (map-slot s (one_finished id) (λ v. ground arith) (map (one_started id) us)
          (one_started id (row id s n))
          (map-slot s (one_started id) (λ v. ground arith) us (row id s n) h)
        ∙ ap (λ u. some u) (bump_row id n s))

started-id :
    (id k : ℕ) (us : List Upload)
    → is_some (upload_by_id k (bump_started id us)) ≡ is_some (upload_by_id k us)
unfolding upload_by_id bump_started
started-id id k [] = refl
started-id id k (u ∷ us) = ground (arith, started-id id k us)

finished-id :
    (id k : ℕ) (us : List Upload)
    → is_some (upload_by_id k (bump_finished id us)) ≡ is_some (upload_by_id k us)
unfolding upload_by_id bump_finished
finished-id id k [] = refl
finished-id id k (u ∷ us) = ground (arith, finished-id id k us)

append-id :
    (id : ℕ) (us : List Upload) (u : Upload)
    → u.id ≡ id
    → is_some (upload_by_id id (us ++ u ∷ [])) ≡ true
unfolding upload_by_id
append-id id [] u h = ground (arith, h)
append-id id (v ∷ us) u h = ground (arith, append-id id us u h)

put-fresh : {A : Type 0} (k : ℕ) (v : A) (t : Table A) → KeyFree k t → put k v t ≡ t ++ (k, v) ∷ []
unfolding put
put-fresh k v [] h = refl
put-fresh k v ((j, w) ∷ t) h = ground (arith, h, put-fresh k v t h.1)

IsMap-middle :
    {A : Type 0} (ps : Table A) (i : ℕ) (v : A) (ws : Table A)
    → IsMap (ps ++ (i, v) ∷ ws)
    → KeyFree i ps
IsMap-middle [] i v ws m = tt
IsMap-middle {A = A} ((j, w) ∷ ps) i v ws m = (middle ps m.0, IsMap-middle ps i v ws m.1)
  where
    middle : (qs : Table A) → KeyFree j (qs ++ (i, v) ∷ ws) → (j == i) ≡ false
    middle [] f = ground (arith, f.0)
    middle (q ∷ qs) f = middle qs f.1

-- The parts, each whole, in the order in which they are sent.
abbrev pub upload_all : ℕ → Parts → Store → Store
upload_all id [] st = st
upload_all id ((index, bytes) ∷ ws) st =
    upload_all id ws (upload_part id index (record { bytes = bytes; whole = true }) st).1

pub record Filled (id n : ℕ) (s : Slot) (ps : Parts) (es : List Entry) (st : Store) : Type 0 where
  pub found : upload_by_slot s st.uploads ≡ some (row id s n)
  pub known : is_some (upload_by_id id st.uploads) ≡ true
  pub filled : parts_of id st.blobs ≡ ps
  pub entries_kept : st.entries ≡ es

module _ (id : ℕ) (s : Slot) (es : List Entry) where
  upload_part-Filled :
      (n : ℕ) (ps : Parts) (index : ℕ) (bytes : Text) (st : Store)
      → Filled id n s ps es st
      → KeyFree index ps
      → Filled id
          (n + 1)
          s
          (ps ++ (index, bytes) ∷ [])
          es
          (upload_part id index (record { bytes = bytes; whole = true }) st).1
  unfolding upload_part start_part finish_part write_part
  upload_part-Filled n ps index bytes st f free = rw f.known (record {
    found = bump-slot id n s st.uploads f.found;
    known = finished-id id id (bump_started id st.uploads) ∙ started-id id id st.uploads ∙ f.known;
    filled =
        parts_of-put id id _ st.blobs ∙ rw (==_refl id, f.filled) (put-fresh index bytes ps free);
    entries_kept = f.entries_kept;
  })

  pub upload_all-Filled :
      (ws ps : Parts) (n : ℕ) (st : Store) {k : ℕ} {qs : Parts}
      → n + length ws ≡ k
      → ps ++ ws ≡ qs
      → IsMap qs
      → Filled id n s ps es st
      → Filled id k s qs es (upload_all id ws st)
  upload_all-Filled [] ps n st {k} {qs} h e m f =
      subst (λ q. Filled id k s q es st) (sym (append-nil ps) ∙ e)
        (subst (λ j. Filled id j s ps es st) (omega (arith, h)) f)
  upload_all-Filled ((index, bytes) ∷ ws) ps n st h e m f =
      upload_all-Filled ws (ps ++ (index, bytes) ∷ []) (n + 1) _ (omega (arith, h))
        (append_assoc ps ((index, bytes) ∷ []) ws ∙ e) m
        (upload_part-Filled n ps index bytes st f
          (IsMap-middle ps index bytes ws (subst (λ q. IsMap q) (sym e) m)))

pub create_upload-Filled :
    (id : ℕ) (s : Slot) (st : Store)
    → upload_by_slot s st.uploads ≡ none
    → is_some (upload_by_id id st.uploads) ≡ false
    → parts_of id st.blobs ≡ []
    → Filled id 0 s [] st.entries (create_upload id s st).1
unfolding create_upload new_upload
create_upload-Filled id s st free new blank =
    rw (free, new)
      (record {
        found = append-slot s st.uploads (row id s 0) free (slot_eq_refl s);
        known = append-id id st.uploads (row id s 0) refl;
        filled = blank;
        entries_kept = refl;
      })
