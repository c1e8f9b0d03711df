-- ===== src/Cache/Match/Priority.antt =====
-- Which of the fitting entries comes first.
use multirunner.Common.{
  ℕ, ◌≤◌, ◌≡◌, refl, ◌∙◌, subst, Bool, true, Option, none, some, List, [], ◌∷◌, inl, inr, leb, Text,
  Bool-cases, arith,
}
use multirunner.Cache.Store.{Slot, slot_eq, Entry, Store}
use multirunner.Cache.Store.Rows.{slot_eq_refl, slot_eq→≡}
use multirunner.Cache.Match.{
  newer, newest, or_else, query_exact, match_keys, match_scopes, match_entry,
}
use multirunner.Cache.Match.Finding.{newest-Answer, touched-result, Answer, Among, first, later}

newer-le :
    (e : Entry) (x : Option Entry)
    → (r : Entry) × (newer e x ≡ some r) × (e.updated_at ≤ r.updated_at)
unfolding newer
newer-le e none = (e, refl, omega arith)
newer-le e (some f) = elim (Bool-cases (leb f.updated_at e.updated_at)) [
  | inl h ↦ rw h (e, refl, omega arith)
  | inr h ↦ rw h (f, refl, ground (arith, h))
]

newer-keeps :
    (e f : Entry) → (r : Entry) × (newer e (some f) ≡ some r) × (f.updated_at ≤ r.updated_at)
unfolding newer
newer-keeps e f = elim (Bool-cases (leb f.updated_at e.updated_at)) [
  | inl h ↦ rw h (e, refl, ground (arith, h))
  | inr h ↦ rw h (f, refl, omega arith)
]

-- A row that passes the test is found, or a newer one.
newest-le :
    (p : Entry → Bool) (es : List Entry) (f : Entry)
    → Among f es
    → p f ≡ true
    → (r : Entry) × (newest p es ≡ some r) × (f.updated_at ≤ r.updated_at)
unfolding newest
newest-le p [] f i h = elim i [ ]
newest-le p (_ ∷ es) f first h = rw h (newer-le f (newest p es))
newest-le p (e ∷ es) f (later i) h =
    let (r, q, le) = newest-le p es f i h in
    elim (Bool-cases (p e)) [
      | inl k ↦ let (s, t, le') = newer-keeps e r in rw (k, q) (s, t, omega (arith, le, le'))
      | inr k ↦ rw k (r, q, le)
    ]

-- If there is an entry of exactly the primary key in the first scope, with the version and repository
-- asked for, then matchEntry gives an entry of that key, version, scope and repository which is no
-- older: neither a restore key nor a prefix nor a later scope comes before it.
pub match_entry-exact :
    (like : Text → Text → Bool) (now : ℕ) (s : Slot) (keys scopes : List Text) (st : Store)
    (f : Entry)
    → Among f st.entries
    → f.slot ≡ s
    → (r : Entry) × ((match_entry like now
          (s.key ∷ keys)
          s.version
          (s.scope ∷ scopes)
          s.repo_id
          st).0
        ≡ some r)
      × (r.slot ≡ s)
      × (f.updated_at ≤ r.updated_at)
unfolding match_entry match_scopes match_keys query_exact or_else
match_entry-exact like now s keys scopes st f i h =
    let test = λ (e : Entry). slot_eq e.slot s in
    let (r, q, le) = newest-le test st.entries f i (rw h (slot_eq_refl s)) in
    let a = subst (Answer test st.entries) q (newest-Answer test st.entries) in
    (r, touched-result now _ st ∙ rw (q, or_else) refl, slot_eq→≡ r.slot s a.1, le)
