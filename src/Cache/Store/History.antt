-- ===== src/Cache/Store/History.antt =====
-- The store under any history of calls.
use multirunner.Common.{
  All-map, ℕ, zero, suc, ◌≡◌, refl, ap, true, false, some, List, [], ◌∷◌, ◌++◌, ◌==◌, ==_iff,
  if_elim, Text, Table, lookup, All, Bool-cases, Option-cases, inl, inr, arith, subst,
}
use mathlib.Core.Option.{some-injective}
use multirunner.Cache.Store.{
  Slot, Upload, Entry, Parts, Store, Body, create_upload, upload_part, complete_upload, contiguous,
  parts_of, entry_by_id, read_parts, download,
}
use multirunner.Cache.Store.Evict.{touch_entry, evict}
use multirunner.Cache.Store.Rows.{IsWhole, IsApart, Apart}
use multirunner.Cache.Store.Invariant.{
  IsUnused, IsValid, create_upload-IsValid, upload_part-IsValid,
}
use multirunner.Cache.Store.Replacing.{complete_upload-IsValid}
use multirunner.Cache.Store.Evicting.{evict-IsValid}

-- One call of the store. An upload gets an id that is no entry's: randomID draws from 2^62.
pub data Call (st : Store) : Store → Type 0 where
  creates : (id : ℕ) (s : Slot) → IsUnused st.entries id → Call st (create_upload id s st).1
  uploads : (id index : ℕ) (body : Body) → Call st (upload_part id index body st).1
  completes : (s : Slot) (updated used : ℕ) → Call st (complete_upload s updated used st).1
  touches : (id now : ℕ) → Call st (record st { entries = touch_entry id now st.entries })
  evicts : (older_than max_bytes : ℕ) → Call st (evict older_than max_bytes st).1

pub data History (st : Store) : Store → Type 0 where
  here : History st st
  next : {u v : Store} → History st u → Call u v → History st v

abbrev pub empty : Store
empty = record { uploads = []; entries = []; blobs = [] }

empty-IsValid : IsValid empty
empty-IsValid = record { whole = tt; apart = tt; unused = tt }

-- A touch changes neither an id nor a slot nor a part.
-- Renaming the clock on either side keeps two rows apart.
IsApart-left : (now : ℕ) (e f : Entry) → IsApart e f → IsApart (record e { last_used_at = now }) f
IsApart-left now e f h = record { ids_differ = h.ids_differ; slots_differ = h.slots_differ }

IsApart-right : (now : ℕ) (e f : Entry) → IsApart e f → IsApart e (record f { last_used_at = now })
IsApart-right now e f h = record { ids_differ = h.ids_differ; slots_differ = h.slots_differ }

module _ (id now : ℕ) where
  touch-All :
      (P Q : Entry → Type 0)
      → ((e : Entry) → P e → Q e)
      → ((e : Entry) → P e → Q (record e { last_used_at = now }))
      → (es : List Entry) → All P es
      → All Q (touch_entry id now es)
  unfolding touch_entry
  touch-All P Q f g [] a = tt
  touch-All P Q f g (e ∷ es) a =
      (if_elim Q (e.id == id) _ _ (λ _. g e a.0) (λ _. f e a.0), touch-All P Q f g es a.1)

  touch-Apart : (es : List Entry) → Apart es → Apart (touch_entry id now es)
  unfolding touch_entry
  touch-Apart [] a = tt
  touch-Apart (e ∷ es) a = (
    if_elim (λ (x : Entry). All (IsApart x) (touch_entry id now es)) (e.id == id) _ _
        (λ _.
          touch-All (IsApart e) (IsApart (record e { last_used_at = now }))
            (λ f h. IsApart-left now e f h) (λ f h. IsApart-right now _ f (IsApart-left now e f h))
            es a.0)
        (λ _. touch-All (IsApart e) (IsApart e) (λ f h. h) (λ f h. IsApart-right now e f h) es a.0),
    touch-Apart es a.1,
  )

  touch-IsUnused : (es : List Entry) (k : ℕ) → IsUnused es k → IsUnused (touch_entry id now es) k
  touch-IsUnused es k =
      touch-All (λ (e : Entry). (e.id == k) ≡ false) (λ (e : Entry). (e.id == k) ≡ false) (λ e h. h)
        (λ e h. h) es

  touch-IsValid :
      (st : Store) → IsValid st → IsValid (record st { entries = touch_entry id now st.entries })
  touch-IsValid st v = record {
    whole =
        touch-All (IsWhole st.blobs) (IsWhole st.blobs) (λ e h. h)
          (λ e h. record { counted = h.counted; complete = h.complete }) st.entries v.whole;
    apart = touch-Apart st.entries v.apart;
    unused = All-map (λ (u : Upload) h. touch-IsUnused st.entries u.id h) st.uploads v.unused;
  }

Call-IsValid : (st u : Store) → Call st u → IsValid st → IsValid u
Call-IsValid st _ (creates id s f) v = create_upload-IsValid id s st f v
Call-IsValid st _ (uploads id index body) v = upload_part-IsValid id index body st v
Call-IsValid st _ (completes s updated used) v = complete_upload-IsValid s updated used st v
Call-IsValid st _ (touches id now) v = touch-IsValid id now st v
Call-IsValid st _ (evicts older_than max_bytes) v = evict-IsValid older_than max_bytes st v

-- Every call of the store keeps it valid: each entry has all of its parts and no other, ids and
-- slots are unique, and no upload has an entry's id.
pub History-IsValid : (st u : Store) → History st u → IsValid st → IsValid u
History-IsValid st _ here v = v
History-IsValid st w (next {u} h c) v = Call-IsValid u w c (History-IsValid st u h v)

-- The parts that are there are read.
contiguous-read :
    (n : ℕ) (ps : Parts) → contiguous n ps ≡ true → (t : Text) × (read_parts n ps ≡ some t)
unfolding contiguous read_parts
contiguous-read zero ps c = ([], refl)
contiguous-read (suc n) ps c =
    let (t, e) = contiguous-read n ps (ground (arith, c)) in
    elim (Option-cases (lookup n ps)) [
      | inl h ↦ absurd (ground (arith, c, h))
      | inr (p, h) ↦ (t ++ p, rw (e, h, read_parts) refl)
    ]

find-IsWhole :
    (b : Table Parts) (id : ℕ) (e : Entry) (es : List Entry)
    → entry_by_id id es ≡ some e
    → All (IsWhole b) es
    → (e.id ≡ id) × IsWhole b e
unfolding entry_by_id
find-IsWhole b id e [] h w = cc
find-IsWhole b id e (f ∷ es) h w = elim (Bool-cases (f.id == id)) [
  | inl k ↦
      let q : f ≡ e = some-injective f e (rw k at h) in
      subst (λ x. (x.id ≡ id) × IsWhole b x) q ((==_iff f.id id).0 k, w.0)
  | inr k ↦ find-IsWhole b id e es (rw k at h) w.1
]

-- After any history of calls from an empty store, in which no new upload gets the id of an entry, a
-- download of any id that has an entry reads to its end: no part of it is missing.
pub History-download :
    (u : Store) (id : ℕ) (e : Entry)
    → History empty u
    → entry_by_id id u.entries ≡ some e
    → (t : Text) × (download id u ≡ some (some t))
unfolding download
History-download u id e h k =
    let v = History-IsValid empty u h empty-IsValid in
    let (q, w) = find-IsWhole u.blobs id e u.entries k v.whole in
    let (t, r) = contiguous-read e.part_count (parts_of e.id u.blobs) w.complete in
    (
      t,
      rw (k, download)
          (ap some (subst (λ i. read_parts e.part_count (parts_of i u.blobs) ≡ some t) q r)),
    )
