-- ===== src/Cache/Match/Finding.antt =====
-- Which entry a restore gets.
use multirunner.Common.{
  ℕ, ◌≡◌, refl, ◌∙◌, sym, ap, Bool, true, false, ◌&&◌, ◌||◌, Option, none, some, List, [], ◌∷◌, inl,
  inr, leb, if_elim, any, All, Text, text_eq, text_eq→≡, Bool-cases, arith,
}
use multirunner.Cache.Store.{slot_eq, Entry, Store}
use multirunner.Cache.Match.{
  newer, newest, or_else, query_exact, query_prefix, match_keys, match_scopes, touched, match_entry,
}
use multirunner.Cache.Match.Prefix.{starts_with_fold, IsLike, like-escape_like}

pub data Among (e : Entry) : List Entry → Type 0 where
  first : {es : List Entry} → Among e (e ∷ es)
  later : {f : Entry} {es : List Entry} → Among e es → Among e (f ∷ es)

pub Among-All {ℓ} : (P : Entry → Type ℓ) {e : Entry} {es : List Entry} → Among e es → All P es → P e
Among-All P first a = a.0
Among-All P (later m) a = Among-All P m a.1

-- An answer to a query: one of the rows that pass the test, or none if there is none.
abbrev pub Answer : (Entry → Bool) → List Entry → Option Entry → Type 0
Answer p es none = All (λ (e : Entry). p e ≡ false) es
Answer p es (some e) = Among e es × (p e ≡ true)

Answer-cons :
    (p : Entry → Bool) (e : Entry) (es : List Entry) (x : Option Entry)
    → p e ≡ false
    → Answer p es x
    → Answer p (e ∷ es) x
Answer-cons p e es none h a = (h, a)
Answer-cons p e es (some f) h a = (later a.0, a.1)

newer-Answer :
    (p : Entry → Bool) (e : Entry) (es : List Entry) (x : Option Entry)
    → p e ≡ true
    → Answer p es x
    → Answer p (e ∷ es) (newer e x)
unfolding newer
newer-Answer p e es none h a = (first, h)
newer-Answer p e es (some f) h a =
    if_elim (Answer p (e ∷ es)) (leb f.updated_at e.updated_at) _ _ (λ _. (first, h))
      (λ _. (later a.0, a.1))

pub newest-Answer : (p : Entry → Bool) (es : List Entry) → Answer p es (newest p es)
unfolding newest
newest-Answer p [] = tt
newest-Answer p (e ∷ es) =
    if_elim (Answer p (e ∷ es)) (p e) _ _
      (λ h. newer-Answer p e es (newest p es) h (newest-Answer p es))
      (λ h. Answer-cons p e es (newest p es) h (newest-Answer p es))

or_else-Answer :
    (p q : Entry → Bool) (es : List Entry) (x y : Option Entry)
    → Answer p es x
    → Answer q es y
    → Answer (λ e. p e || q e) es (or_else x y)
unfolding or_else
or_else-Answer p q es (some e) y a b = (a.0, rw a.1)
or_else-Answer p q es none (some e) a b = (b.0, ground (arith, b.1))
or_else-Answer p q es none none a b = neither es a b
  where
    neither :
        (fs : List Entry)
        → All (λ (e : Entry). p e ≡ false) fs
        → All (λ (e : Entry). q e ≡ false) fs
        → All (λ (e : Entry). (p e || q e) ≡ false) fs
    neither [] c d = tt
    neither (f ∷ fs) c d = (ground (arith, c.0, d.0), neither fs c.1 d.1)

Answer-cong :
    (p q : Entry → Bool)
    → ((e : Entry) → p e ≡ q e)
    → (es : List Entry) (x : Option Entry) → Answer p es x
    → Answer q es x
Answer-cong p q h es (some e) a = (a.0, sym (h e) ∙ a.1)
Answer-cong p q h [] none a = tt
Answer-cong p q h (e ∷ es) none a = (sym (h e) ∙ a.0, Answer-cong p q h es none a.1)

-- The entry is for this version, scope and repository, and its key starts with this one.
abbrev pub fits : Text → Text → Text → Text → Entry → Bool
fits version repo_id key scope e =
    starts_with_fold e.slot.key key
    && text_eq e.slot.version version
    && text_eq e.slot.scope scope
    && text_eq e.slot.repo_id repo_id

abbrev pub fits_any : Text → Text → List Text → List Text → Entry → Bool
fits_any version repo_id keys scopes e =
    any (λ scope. any (λ key. fits version repo_id key scope e) keys) scopes

starts_with_fold_self : (v key : Text) → text_eq v key ≡ true → starts_with_fold v key ≡ true
starts_with_fold_self v key h = rw (text_eq→≡ v key h) (self key)
  where
    self : (t : Text) → starts_with_fold t t ≡ true
    self [] = refl
    self (c ∷ t) = ground (arith, self t)

module _ (like : Text → Text → Bool) (l : IsLike like) (version repo_id : Text)
    (es : List Entry) where
  query_prefix-Answer :
      (key scope : Text)
      → Answer (fits version repo_id key scope) es (query_prefix like version repo_id es key scope)
  unfolding query_prefix
  query_prefix-Answer key scope =
      Answer-cong _ (fits version repo_id key scope)
        (λ e.
          ap
            (λ b.
              b
              && text_eq e.slot.version version
              && text_eq e.slot.scope scope
              && text_eq e.slot.repo_id repo_id)
            (like-escape_like like key e.slot.key l))
        es _ (newest-Answer _ es)

  -- An exact match is a prefix match.
  exact_fits :
      (key scope : Text) (e : Entry)
      → slot_eq e.slot (record { key = key; version = version; scope = scope; repo_id = repo_id })
          || fits version repo_id key scope e
        ≡ fits version repo_id key scope e
  unfolding slot_eq
  exact_fits key scope e = elim (Bool-cases (text_eq e.slot.key key)) [
    | inl h ↦ ground (arith, h, starts_with_fold_self e.slot.key key h)
    | inr h ↦ ground (arith, h)
  ]

  match_keys-Answer :
      (keys : List Text) (scope : Text)
      → Answer
          (λ e. any (λ key. fits version repo_id key scope e) keys)
          es
          (match_keys like version repo_id es keys scope)
  unfolding match_keys query_exact
  match_keys-Answer [] scope = nothing es
    where
      nothing : (fs : List Entry) → All (λ (e : Entry). false ≡ false) fs
      nothing [] = tt
      nothing (f ∷ fs) = (refl, nothing fs)
  match_keys-Answer (key ∷ keys) scope =
      let later_keys = λ (e : Entry). any (λ k. fits version repo_id k scope e) keys in
      let exact = λ (e : Entry).
        slot_eq e.slot
          (record { key = key; version = version; scope = scope; repo_id = repo_id }) in
      let near = fits version repo_id key scope in
      Answer-cong (λ e. exact e || (near e || later_keys e)) (λ e. near e || later_keys e)
        (λ e. ground (arith, exact_fits key scope e)) es _
        (or_else-Answer exact (λ e. near e || later_keys e) es _ _ (newest-Answer exact es)
          (or_else-Answer near later_keys es _ _ (query_prefix-Answer key scope)
            (match_keys-Answer keys scope)))

  match_scopes-Answer :
      (keys scopes : List Text)
      → Answer
          (fits_any version repo_id keys scopes)
          es
          (match_scopes like version repo_id es keys scopes)
  unfolding match_scopes
  match_scopes-Answer keys [] = nothing es
    where
      nothing : (fs : List Entry) → All (λ (e : Entry). false ≡ false) fs
      nothing [] = tt
      nothing (f ∷ fs) = (refl, nothing fs)
  match_scopes-Answer keys (scope ∷ scopes) =
      or_else-Answer (λ e. any (λ key. fits version repo_id key scope e) keys)
        (fits_any version repo_id keys scopes) es _ _ (match_keys-Answer keys scope)
        (match_scopes-Answer keys scopes)

pub touched-result : (now : ℕ) (x : Option Entry) (st : Store) → (touched now x st).0 ≡ x
unfolding touched
touched-result now none st = refl
touched-result now (some e) st = refl

-- matchEntry gives an entry of the version and repository asked for, in one of the scopes, whose
-- key starts with one of the keys (ASCII letters of either case being equal); it gives none only if
-- there is no such entry. There is at least one key.
pub match_entry-Answer :
    (like : Text → Text → Bool) (now : ℕ) (key : Text) (keys : List Text) (version : Text)
    (scopes : List Text) (repo_id : Text) (st : Store)
    → IsLike like
    → Answer
        (fits_any version repo_id (key ∷ keys) scopes)
        st.entries
        (match_entry like now (key ∷ keys) version scopes repo_id st).0
unfolding match_entry
match_entry-Answer like now key keys version scopes repo_id st l =
    rw (touched-result now (match_scopes like version repo_id st.entries (key ∷ keys) scopes) st)
      (match_scopes-Answer like l version repo_id st.entries (key ∷ keys) scopes)
