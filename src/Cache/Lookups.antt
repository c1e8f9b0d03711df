-- ===== src/Cache/Lookups.antt =====
-- Restores and block ids on small inputs, with a LIKE that does what SQLite documents.
use multirunner.Common.{
  ℕ, zero, suc, ◌≡◌, refl, Bool, true, false, ◌&&◌, ◌||◌, some, [], ◌∷◌, ◌++◌, ◌==◌, if◌then◌else◌,
  Text, arith,
}
use multirunner.Cache.Store.{Slot, Entry, Store}
use multirunner.Cache.Match.{match_entry}
use multirunner.Cache.Match.Prefix.{lower, IsLike}
use multirunner.Cache.Match.Finding.{Answer, fits_any, match_entry-Answer}
use multirunner.Cache.BlockId.{chunk_index, pad, bytes_of, chunk_index-inverts}

abbrev one : (Text → Bool) → ℕ → Text → Bool
one next c [] = false
one next c (d ∷ v) = (lower c == lower d) && next v

abbrev skip : (Text → Bool) → Text → Bool
skip next [] = false
skip next (d ∷ v) = next v

abbrev any_suffix : (Text → Bool) → Text → Bool
any_suffix next [] = next []
any_suffix next (d ∷ v) = next (d ∷ v) || any_suffix next v

abbrev is_empty : Text → Bool
is_empty [] = true
is_empty (d ∷ v) = false

-- The first argument tells whether the escape character stands before.
abbrev like_after : Bool → Text → Text → Bool
like_after true [] v = false
like_after true (c ∷ p) v = one (like_after false p) c v
like_after false [] v = is_empty v
like_after false (c ∷ p) v =
    if c == 92
    then like_after true p v
    else if c == 37
    then any_suffix (like_after false p) v
    else if c == 95
    then skip (like_after false p) v
    else one (like_after false p) c v

abbrev pub sqlite_like : Text → Text → Bool
sqlite_like = like_after false

every_suffix : (v : Text) → any_suffix is_empty v ≡ true
every_suffix [] = refl
every_suffix (d ∷ v) = every_suffix v

pub sqlite_like-IsLike : IsLike sqlite_like
sqlite_like-IsLike = record {
  rest = every_suffix;
  plain_end = λ c p h. ground (arith, h);
  plain = λ c d p v h. ground (arith, h);
  escaped_end = λ c p. refl;
  escaped = λ c d p v. refl;
}

abbrev slot : Text → Slot
slot key = record { key = key; version = 1 ∷ []; scope = 2 ∷ []; repo_id = 3 ∷ [] }

abbrev entry : ℕ → Text → Entry
entry id key = record {
  id = id;
  slot = slot key;
  part_count = 1;
  updated_at = id;
  last_used_at = id;
}

-- The keys are ab and A_c.
abbrev stored : Store
stored = record {
  uploads = [];
  entries = entry 5 (97 ∷ 98 ∷ []) ∷ entry 6 (65 ∷ 95 ∷ 99 ∷ []) ∷ [];
  blobs = [];
}

match_entry-Answer_example :
    Answer
      (fits_any (1 ∷ []) (3 ∷ []) ((97 ∷ 95 ∷ []) ∷ []) ((2 ∷ []) ∷ []))
      stored.entries
      (match_entry sqlite_like 9 ((97 ∷ 95 ∷ []) ∷ []) (1 ∷ []) ((2 ∷ []) ∷ []) (3 ∷ []) stored).0
match_entry-Answer_example =
    match_entry-Answer sqlite_like 9 (97 ∷ 95 ∷ []) [] (1 ∷ []) ((2 ∷ []) ∷ []) (3 ∷ []) stored
      sqlite_like-IsLike

abbrev filled : ℕ → Text
filled zero = []
filled (suc n) = 0 ∷ filled n

chunk_index-inverts_example :
    (chunk_index (filled 36 ++ pad 12 41) ≡ some 41)
    × (chunk_index (filled 16 ++ (bytes_of 300 ++ filled 44)) ≡ some 300)
chunk_index-inverts_example =
    chunk_index-inverts 41 300 (filled 36) (filled 16) (filled 44) (omega arith) (omega arith) refl
      refl refl
