-- ===== src/Cache/Match/Prefix.antt =====
-- What an escaped key followed by `%` matches.
use multirunner.Common.{
  ℕ, ◌+◌, ◌≡◌, ◌∙◌, ap, Bool, true, false, ◌&&◌, [], ◌∷◌, ◌++◌, inl, inr, ◌==◌, leb, if◌then◌else◌,
  Text, Bool-cases,
}
use multirunner.Cache.Match.{is_wildcard, escape_like}

abbrev pub lower : ℕ → ℕ
lower c = if leb 65 c && leb c 90 then c + 32 else c

-- The value starts with the key, ASCII letters of either case being equal.
abbrev pub starts_with_fold : Text → Text → Bool
starts_with_fold v [] = true
starts_with_fold [] (c ∷ key) = false
starts_with_fold (d ∷ v) (c ∷ key) = (lower c == lower d) && starts_with_fold v key

-- LIKE with ESCAPE '\' as SQLite documents it, for patterns without `_`.
pub record IsLike (like : Text → Text → Bool) : Type 0 where
  pub rest : (v : Text) → like (37 ∷ []) v ≡ true
  pub plain_end : (c : ℕ) (p : Text) → is_wildcard c ≡ false → like (c ∷ p) [] ≡ false
  pub plain :
      (c d : ℕ) (p v : Text)
      → is_wildcard c ≡ false
      → like (c ∷ p) (d ∷ v) ≡ (lower c == lower d) && like p v
  pub escaped_end : (c : ℕ) (p : Text) → like (92 ∷ c ∷ p) [] ≡ false
  pub escaped :
      (c d : ℕ) (p v : Text) → like (92 ∷ c ∷ p) (d ∷ v) ≡ (lower c == lower d) && like p v

-- The escaped key followed by `%` matches exactly the values that start with the key, where
-- SQLite's LIKE takes ASCII letters of either case for equal: no character of a key is a wildcard.
pub like-escape_like :
    (like : Text → Text → Bool) (key v : Text)
    → IsLike like
    → like (escape_like key ++ 37 ∷ []) v ≡ starts_with_fold v key
unfolding escape_like
like-escape_like like [] v l = l.rest v
like-escape_like like (c ∷ key) [] l = elim (Bool-cases (is_wildcard c)) [
  | inl h ↦ rw h (l.escaped_end c _)
  | inr h ↦ rw h (l.plain_end c _ h)
]
like-escape_like like (c ∷ key) (d ∷ v) l =
    let rest = ap (λ b. (lower c == lower d) && b) (like-escape_like like key v l) in
    elim (Bool-cases (is_wildcard c)) [
      | inl h ↦ rw h (l.escaped c d _ v ∙ rest)
      | inr h ↦ rw h (l.plain c d _ v h ∙ rest)
    ]
