-- ===== src/Cache/Match.antt =====
-- internal/cache/store.go, matchEntry: the key, the restore keys and the scopes of a restore.
--
-- SQLite's LIKE is a parameter, on a pattern with the escape character `\` and a value. Rows of one
-- updated_at come in any order: that is the order of the list.
pub mod Prefix
pub mod Finding
pub mod Priority
use multirunner.Common.{
  ℕ, ◌≡◌, Bool, true, false, ◌&&◌, ◌||◌, Option, none, some, List, [], ◌∷◌, ◌++◌, ◌==◌, leb,
  if◌then◌else◌, Text, text_eq,
}
use multirunner.Cache.Store.{Slot, slot_eq, Entry, Store}
use multirunner.Cache.Store.Evict.{touch_entry}

abbrev pub is_wildcard : ℕ → Bool
is_wildcard c = c == 92 || c == 37 || c == 95

-- escapeLike
unfoldable pub escape_like : Text → Text
escape_like [] = []
escape_like (c ∷ v) = if is_wildcard c then 92 ∷ c ∷ escape_like v else c ∷ escape_like v

-- ORDER BY updated_at DESC LIMIT 1
unfoldable pub newer : Entry → Option Entry → Option Entry
newer e none = some e
newer e (some f) = if leb f.updated_at e.updated_at then some e else some f

unfoldable pub newest : (Entry → Bool) → List Entry → Option Entry
unfolding newer
newest p [] = none
newest p (e ∷ es) = let rest = newest p es in if p e then newer e rest else rest

-- The second operand is the query that runs if the first finds no row.
unfoldable pub or_else : Option Entry → Option Entry → Option Entry
or_else none y = y
or_else (some e) y = some e

module _ (version repo_id : Text) (es : List Entry) where
  unfoldable pub query_exact : Text → Text → Option Entry
  unfolding newest slot_eq
  query_exact key scope =
      newest
        (λ e.
          slot_eq e.slot
            (record { key = key; version = version; scope = scope; repo_id = repo_id }))
        es

module _ (like : Text → Text → Bool) (version repo_id : Text) (es : List Entry) where
  unfoldable pub query_prefix : Text → Text → Option Entry
  unfolding newest escape_like
  query_prefix key scope =
      newest
        (λ e.
          like (escape_like key ++ 37 ∷ []) e.slot.key
          && text_eq e.slot.version version
          && text_eq e.slot.scope scope
          && text_eq e.slot.repo_id repo_id)
        es

  -- Each key exactly, then as a prefix: the primary key first, then the restore keys.
  unfoldable pub match_keys : List Text → Text → Option Entry
  unfolding or_else query_exact query_prefix
  match_keys [] scope = none
  match_keys (key ∷ keys) scope =
      or_else (query_exact version repo_id es key scope)
        (or_else (query_prefix key scope) (match_keys keys scope))

  unfoldable pub match_scopes : List Text → List Text → Option Entry
  unfolding or_else match_keys
  match_scopes keys [] = none
  match_scopes keys (scope ∷ scopes) = or_else (match_keys keys scope) (match_scopes keys scopes)

-- touched
unfoldable pub touched : ℕ → Option Entry → Store → Option Entry × Store
unfolding touch_entry
touched now none st = (none, st)
touched now (some e) st = (some e, record st { entries = touch_entry e.id now st.entries })

-- matchEntry; without keys no scope finds a row either.
unfoldable pub match_entry :
    (Text → Text → Bool) → ℕ → List Text → Text → List Text → Text → Store → Option Entry × Store
unfolding match_scopes touched
match_entry like now [] version scopes repo_id st = (none, st)
match_entry like now (key ∷ keys) version scopes repo_id st =
    touched now (match_scopes like version repo_id st.entries (key ∷ keys) scopes) st
