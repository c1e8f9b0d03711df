-- ===== src/Cache/Store/Repointing.antt =====
-- The rows and the folders of the other entries when an entry is repointed.
use multirunner.Common.{
  ℕ, ◌≡◌, true, false, some, List, [], ◌∷◌, ◌⊎◌, inl, inr, ◌==◌, if_elim, Table, length, All,
  Bool-cases, arith, subst,
}
use multirunner.Cache.Store.{
  Slot, slot_eq, Entry, Parts, parts_of, contiguous, entry_by_slot, repoint_one, repoint, id_taken,
}
use multirunner.Cache.Store.Rows.{slot_eq→≡, IsWhole, IsWhole-cong, IsApart, Apart}
use multirunner.Cache.Store.Invariant.{IsUnused}
use multirunner.Cache.Store.Completing.{flip}

module _ (s : Slot) (folder count updated used : ℕ) where
  abbrev one : Entry → Entry
  one = repoint_one s folder count updated used

  -- Only the entry of this slot may have the id.
  abbrev NotTaken : Entry → Type 0
  NotTaken e = (slot_eq e.slot s ≡ true) ⊎ ((e.id == folder) ≡ false)

  pub id_taken-NotTaken : (es : List Entry) → id_taken s folder es ≡ false → All NotTaken es
  unfolding id_taken
  id_taken-NotTaken [] h = tt
  id_taken-NotTaken (e ∷ es) h = (ground arith, id_taken-NotTaken es (ground arith))

  one-hit :
      (e : Entry)
      → slot_eq e.slot s ≡ true
      → ((one e).id ≡ folder) × ((one e).slot ≡ e.slot) × ((one e).part_count ≡ count)
  unfolding repoint_one
  one-hit e h = ground arith

  one-miss : (e : Entry) → slot_eq e.slot s ≡ false → one e ≡ e
  unfolding repoint_one
  one-miss e h = rw h

  same_slot :
      (e f : Entry)
      → slot_eq e.slot s ≡ true
      → slot_eq f.slot s ≡ true
      → slot_eq f.slot e.slot ≡ true
  same_slot e f h k = rw (slot_eq→≡ e.slot s h) k

  one-IsApart : (e f : Entry) → IsApart e f → NotTaken e → NotTaken f → IsApart (one e) (one f)
  one-IsApart e f a x y = elim (Bool-cases (slot_eq e.slot s)) [
    | inl h ↦ elim (Bool-cases (slot_eq f.slot s)) [
      | inl k ↦ cc (same_slot e f h k, a.slots_differ)
      | inr k ↦ rw (one-miss f k) (record {
        ids_differ = rw (one-hit e h).0 (elim y [ inl z ↦ cc | inr z ↦ z ]);
        slots_differ = rw (one-hit e h).1 a.slots_differ;
      })
    ]
    | inr h ↦ elim (Bool-cases (slot_eq f.slot s)) [
      | inl k ↦ rw (one-miss e h) (record {
        ids_differ = rw (one-hit f k).0 (elim x [ inl z ↦ cc | inr z ↦ flip e.id folder z ]);
        slots_differ = rw (one-hit f k).1 a.slots_differ;
      })
      | inr k ↦ rw (one-miss e h, one-miss f k) a
    ]
  ]

  repoint-IsApart :
      (e : Entry) (es : List Entry)
      → All (IsApart e) es
      → NotTaken e
      → All NotTaken es
      → All (IsApart (one e)) (repoint s folder count updated used es)
  unfolding repoint
  repoint-IsApart e [] a x y = tt
  repoint-IsApart e (f ∷ fs) a x y = (one-IsApart e f a.0 x y.0, repoint-IsApart e fs a.1 x y.1)

  pub repoint-Apart :
      (es : List Entry)
      → Apart es
      → All NotTaken es
      → Apart (repoint s folder count updated used es)
  unfolding repoint
  repoint-Apart [] a x = tt
  repoint-Apart (e ∷ es) a x = (repoint-IsApart e es a.0 x.0 x.1, repoint-Apart es a.1 x.1)

  pub repoint-IsUnused :
      (id : ℕ) (es : List Entry)
      → (id == folder) ≡ false
      → IsUnused es id
      → IsUnused (repoint s folder count updated used es) id
  unfolding repoint repoint_one
  repoint-IsUnused id [] d u = tt
  repoint-IsUnused id (e ∷ es) d u = (
    if_elim (λ (f : Entry). (f.id == id) ≡ false) (slot_eq e.slot s) _ _ (λ _. flip id folder d)
        (λ _. u.0),
    repoint-IsUnused id es d u.1,
  )

  -- An entry of another slot keeps its folder.
  abbrev Kept : ℕ → Entry → Type 0
  Kept old e = (slot_eq e.slot s ≡ true) ⊎ ((old == e.id) ≡ false)

  apart-Kept : (old : Entry) (es : List Entry) → All (IsApart old) es → All (Kept old.id) es
  apart-Kept old [] a = tt
  apart-Kept old (e ∷ es) a = (inr (flip e.id old.id a.0.ids_differ), apart-Kept old es a.1)

  pub entry_by_slot-Kept :
      (es : List Entry) {old : Entry}
      → entry_by_slot s es ≡ some old
      → Apart es
      → All (Kept old.id) es
  unfolding entry_by_slot
  entry_by_slot-Kept [] h a = cc
  entry_by_slot-Kept (e ∷ es) {old} h a = elim (Bool-cases (slot_eq e.slot s)) [
    | inl x ↦
        let same : e ≡ old = cc (rw x at h) in
        (inl x, subst (λ (o : Entry). All (Kept o.id) es) same (apart-Kept e es a.0))
    | inr x ↦ let rest = rw x at h in (head_kept es rest a.0, entry_by_slot-Kept es rest a.1)
  ]
    where
      head_kept :
          (fs : List Entry) → entry_by_slot s fs ≡ some old → All (IsApart e) fs → Kept old.id e
      head_kept [] k b = cc
      head_kept (f ∷ fs) k b = elim (Bool-cases (slot_eq f.slot s)) [
        | inl y ↦
            let same : f ≡ old = cc (rw y at k) in
            inr (subst (λ (o : Entry). (o.id == e.id) ≡ false) same b.0.ids_differ)
        | inr y ↦ head_kept fs (rw y at k) b.1
      ]

  pub repoint-IsWhole :
      (b c : Table Parts) (old : ℕ)
      → parts_of folder c ≡ parts_of folder b
      → ((f : ℕ) → (old == f) ≡ false → parts_of f c ≡ parts_of f b)
      → length (parts_of folder b) ≡ count
      → contiguous count (parts_of folder b) ≡ true
      → (es : List Entry) → All (Kept old) es
      → All (IsWhole b) es
      → All (IsWhole c) (repoint s folder count updated used es)
  unfolding repoint
  repoint-IsWhole b c old at_folder elsewhere n k [] a w = tt
  repoint-IsWhole b c old at_folder elsewhere n k (e ∷ es) a w =
      (head, repoint-IsWhole b c old at_folder elsewhere n k es a.1 w.1)
    where
      head : IsWhole c (one e)
      head = elim (Bool-cases (slot_eq e.slot s)) [
        | inl h ↦
            let q = one-hit e h in
            record { counted = rw (q.0, q.2, at_folder) n; complete = rw (q.0, q.2, at_folder) k }
        | inr h ↦
            rw (one-miss e h)
              (IsWhole-cong b c e (elsewhere e.id (elim a.0 [ inl z ↦ cc | inr z ↦ z ])) w.0)
      ]
