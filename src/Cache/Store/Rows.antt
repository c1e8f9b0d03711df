-- ===== src/Cache/Store/Rows.antt =====
-- Rows and folders of the store, one statement at a time.
use multirunner.Common.{
  ℕ, ◌≡◌, true, false, List, [], ◌∷◌, ◌==◌, if◌then◌else◌, text_eq_refl, text_eq→≡, Table, put,
  delete, lookup-put, lookup-delete, length, All, arith,
}
use multirunner.Cache.Store.{Slot, slot_eq, Entry, Parts, parts_of, contiguous}

pub slot_eq_refl : (s : Slot) → slot_eq s s ≡ true
unfolding slot_eq
slot_eq_refl s =
    rw (text_eq_refl s.key, text_eq_refl s.version, text_eq_refl s.scope, text_eq_refl s.repo_id)

pub slot_eq→≡ : (s t : Slot) → slot_eq s t ≡ true → s ≡ t
unfolding slot_eq
slot_eq→≡ s t h = ground (
  arith,
  text_eq→≡ s.key t.key,
  text_eq→≡ s.version t.version,
  text_eq→≡ s.scope t.scope,
  text_eq→≡ s.repo_id t.repo_id,
)

pub parts_of-put :
    (f g : ℕ) (ps : Parts) (b : Table Parts)
    → parts_of f (put g ps b) ≡ (if g == f then ps else parts_of f b)
unfolding parts_of
parts_of-put f g ps b = ground (arith, lookup-put g f ps b)

pub parts_of-delete :
    (f g : ℕ) (b : Table Parts) → parts_of f (delete g b) ≡ (if g == f then [] else parts_of f b)
unfolding parts_of
parts_of-delete f g b = ground (arith, lookup-delete g f b)

-- All the parts of the entry are there, and no other.
pub record IsWhole (b : Table Parts) (e : Entry) : Type 0 where
  pub counted : length (parts_of e.id b) ≡ e.part_count
  pub complete : contiguous e.part_count (parts_of e.id b) ≡ true

pub IsWhole-cong :
    (b c : Table Parts) (e : Entry) → parts_of e.id c ≡ parts_of e.id b → IsWhole b e → IsWhole c e
IsWhole-cong b c e h w = record { counted = rw h w.counted; complete = rw h w.complete }

-- Another id and another slot.
pub record IsApart (e f : Entry) : Type 0 where
  pub ids_differ : (f.id == e.id) ≡ false
  pub slots_differ : slot_eq f.slot e.slot ≡ false

-- Any two rows are apart.
abbrev pub Apart : List Entry → Type 0
Apart [] = Unit {0}
Apart (e ∷ es) = All (IsApart e) es × Apart es
