-- ===== src/Github/Provider/Rotation.antt =====
-- The order in which a poll visits the repositories.
use native.Mathlib.Nat.{
  mod-eq_of_lt, mod-eq-sub-mod, mod-lt, add-mod_right, mod-add-mod, add-mod-mod,
}
use multirunner.Common.{
  ℕ, zero, suc, ◌+◌, ◌-◌, ◌%◌, ◌≤◌, ◌<◌, ◌≡◌, refl, ap, sym, ◌∙◌, false, Option, some, List, [],
  ◌∷◌, ◌++◌, ◌==◌, if◌then◌else◌, ltb, length, length-append, get_elem?, Text, Bool-cases, inl, inr,
  arith,
}
use multirunner.Pool.Access.{Job}
use multirunner.Github.Provider.{
  Repo, RepoSet, RepoPollError, poll_repo, poll_index, poll_loop, poll_result, queued_jobs,
}

abbrev pub drop {ℓ} : {A : Type ℓ} → ℕ → List A → List A
drop zero xs = xs
drop (suc n) [] = []
drop (suc n) (x ∷ xs) = drop n xs

abbrev pub take {ℓ} : {A : Type ℓ} → ℕ → List A → List A
take zero xs = []
take (suc n) [] = []
take (suc n) (x ∷ xs) = x ∷ take n xs

-- The repositories from the s-th on, then those before it.
abbrev pub rotated {ℓ} : {A : Type ℓ} → ℕ → List A → List A
rotated s xs = drop s xs ++ take s xs

-- The jobs and failures of the repositories, in this order.
abbrev pub collect : (Repo → Option (List Job)) → List Repo → List Job × List Text
collect reply [] = ([], [])
collect reply (r ∷ rs) = poll_repo reply r (collect reply rs)

module _ {A : Type 0} where
  drop-get : (s : ℕ) (xs : List A) (k : ℕ) → get_elem? (drop s xs) k ≡ get_elem? xs (s + k)
  drop-get zero xs k = ap (get_elem? xs) (omega arith)
  drop-get (suc s) [] k = refl
  drop-get (suc s) (x ∷ xs) k =
      drop-get s xs k ∙ ap (get_elem? (x ∷ xs)) (let e : suc (s + k) ≡ suc s + k = omega arith in e)

  take-get : (s : ℕ) (xs : List A) (k : ℕ) → k < s → get_elem? (take s xs) k ≡ get_elem? xs k
  take-get zero xs k h = absurd (omega (arith, h))
  take-get (suc s) [] k h = refl
  take-get (suc s) (x ∷ xs) zero h = refl
  take-get (suc s) (x ∷ xs) (suc k) h = take-get s xs k (omega arith)

  append-get :
      (xs ys : List A) (k : ℕ)
      → get_elem? (xs ++ ys) k
        ≡ (if ltb k (length xs) then get_elem? xs k else get_elem? ys (k - length xs))
  append-get [] ys k = ground arith
  append-get (x ∷ xs) ys zero = ground arith
  append-get (x ∷ xs) ys (suc k) = ground (arith, append-get xs ys k)

  length-drop : (s : ℕ) (xs : List A) → s ≤ length xs → length (drop s xs) + s ≡ length xs
  length-drop zero xs h = omega arith
  length-drop (suc s) [] h = absurd (omega (arith, h))
  length-drop (suc s) (x ∷ xs) h = omega (arith, length-drop s xs (omega arith))

  length-take : (s : ℕ) (xs : List A) → s ≤ length xs → length (take s xs) ≡ s
  length-take zero xs h = refl
  length-take (suc s) [] h = absurd (omega (arith, h))
  length-take (suc s) (x ∷ xs) h = omega (arith, length-take s xs (omega arith))

  length-rotated : (s : ℕ) (xs : List A) → s ≤ length xs → length (rotated s xs) ≡ length xs
  length-rotated s xs h =
      omega (arith, length-append (drop s xs) (take s xs), length-drop s xs h, length-take s xs h)

  -- The k-th of the rotated list.
  rotated-get :
      (s : ℕ) (xs : List A) (k : ℕ)
      → s < length xs
      → k < length xs
      → get_elem? (rotated s xs) k ≡ get_elem? xs ((s + k) % length xs)
  rotated-get s xs k hs hk =
      let d = length-drop s xs (omega arith) in
      append-get (drop s xs) (take s xs) k ∙ elim (Bool-cases (ltb k (length (drop s xs)))) [
        | inl e ↦ rw e (drop-get s xs k ∙ ap (get_elem? xs) (sym (mod-eq_of_lt (ground arith))))
        | inr e ↦
            let low : length xs ≤ s + k = ground arith in
            rw e (
              take-get s xs (k - length (drop s xs)) (omega arith)
              ∙ ap (get_elem? xs) (
                  let a : k - length (drop s xs) ≡ s + k - length xs = omega arith in
                  a ∙ sym (mod-eq-sub-mod low ∙ mod-eq_of_lt (omega arith))))
      ]

module _ (reply : Repo → Option (List Job)) (repos : List Repo) (start : ℕ) where
  poll_loop-collect :
      (xs : List Repo) (offset : ℕ)
      → ((k : ℕ)
          → k < length xs
          → get_elem? repos ((start + (offset + k)) % length repos) ≡ get_elem? xs k)
      → poll_loop reply repos start (length xs) offset ≡ collect reply xs
  unfolding poll_loop poll_index
  poll_loop-collect [] offset e = refl
  poll_loop-collect (x ∷ xs) offset e =
      let here : get_elem? repos ((start + offset) % length repos) ≡ some x =
        ap (λ (i : ℕ). get_elem? repos ((start + i) % length repos))
          (let z : offset ≡ offset + 0 = omega arith in z)
        ∙ e 0 (omega arith) in
      let later = poll_loop-collect xs (offset + 1) (λ k h.
        ap (λ (i : ℕ). get_elem? repos ((start + i) % length repos))
          (let z : offset + 1 + k ≡ offset + suc k = omega arith in z)
        ∙ e (suc k) (omega arith)) in
      rw (here, poll_index, later) refl

-- QueuedJobs asks the repositories in turn, from the one at the counter on and then those before it.
-- Then it moves the counter on.
pub queued_jobs-rotated :
    (reply : Repo → Option (List Job)) (rs : RepoSet)
    → 0 < length rs.repos
    → queued_jobs reply rs ≡ (
      poll_result (length rs.repos) (collect reply (rotated (rs.poll % length rs.repos) rs.repos)),
      record rs { poll = rs.poll + 1 },
    )
unfolding queued_jobs
queued_jobs-rotated reply rs h =
    let s : ℕ = rs.poll % length rs.repos in
    let m : s < length rs.repos = mod-lt rs.poll h in
    let l = length-rotated s rs.repos (omega arith) in
    let c = poll_loop-collect reply rs.repos s (rotated s rs.repos) 0 (λ k b.
      ap (λ (i : ℕ). get_elem? rs.repos ((s + i) % length rs.repos))
        (let z : 0 + k ≡ k = omega arith in z)
      ∙ sym (rotated-get s rs.repos k m (omega arith))) in
    let some_left : (length rs.repos == 0) ≡ false = ground arith in
    rw some_left (
      ap (λ found. (poll_result (length rs.repos) found, record rs { poll = rs.poll + 1 }))
        (ap (λ (n : ℕ). poll_loop reply rs.repos s n 0) (sym l) ∙ c))

-- The set after these polls.
abbrev pub after_polls : List (Repo → Option (List Job)) → RepoSet → RepoSet
after_polls [] rs = rs
after_polls (reply ∷ replies) rs = after_polls replies (queued_jobs reply rs).1

after_polls_lem :
    (replies : List (Repo → Option (List Job))) (rs : RepoSet)
    → 0 < length rs.repos
    → after_polls replies rs ≡ record rs { poll = rs.poll + length replies }
after_polls_lem [] rs h = ground arith
after_polls_lem (reply ∷ replies) rs h =
    rw (queued_jobs-rotated reply rs h)
      (after_polls_lem replies (record rs { poll = rs.poll + 1 }) h ∙ ground arith)

drop-eq-cons :
    (i : ℕ) (xs : List Repo) (x : Repo)
    → get_elem? xs i ≡ some x
    → (i < length xs) × (drop i xs ≡ x ∷ drop (suc i) xs)
drop-eq-cons i [] x h = cc
drop-eq-cons zero (y ∷ xs) x h = ground arith
drop-eq-cons (suc i) (y ∷ xs) x h = let (b, d) = drop-eq-cons i xs x h in (omega arith, d)

-- How many polls from here the index leads one.
abbrev pub turn : RepoSet → ℕ → ℕ
turn rs i = (i + (length rs.repos - rs.poll % length rs.repos)) % length rs.repos

turn_lem : (p n i : ℕ) → i < n → ((p + (i + (n - p % n)) % n) % n ≡ i) × ((i + (n - p % n)) % n < n)
turn_lem p n i h =
    let r : p % n < n = mod-lt p (omega arith) in
    (
      sym (mod-add-mod p n ((i + (n - p % n)) % n))
          ∙ add-mod-mod (p % n) (i + (n - p % n)) n
          ∙ ap (λ (m : ℕ). m % n) (let e : p % n + (i + (n - p % n)) ≡ i + n = omega arith in e)
          ∙ add-mod_right i n
          ∙ mod-eq_of_lt h,
      mod-lt (i + (n - p % n)) (omega arith),
    )

-- Whatever the earlier polls were answered, the repository of every index leads the poll of its
-- turn, and its turn comes within as many polls as there are repositories: its jobs stand first.
pub queued_jobs-turn :
    (rs : RepoSet) (i : ℕ) (x : Repo) (replies : List (Repo → Option (List Job)))
    (reply : Repo → Option (List Job))
    → get_elem? rs.repos i ≡ some x
    → length replies ≡ turn rs i
    → (turn rs i < length rs.repos)
      × ((queued_jobs reply (after_polls replies rs)).0
          ≡ poll_result
              (length rs.repos)
              (poll_repo reply x (collect reply (drop (suc i) rs.repos ++ take i rs.repos))))
queued_jobs-turn rs i x replies reply g l =
    let (b, d) = drop-eq-cons i rs.repos x g in
    let (e, t) = turn_lem rs.poll (length rs.repos) i b in
    let start : (rs.poll + length replies) % length rs.repos ≡ i =
      ap (λ (k : ℕ). (rs.poll + k) % length rs.repos) l ∙ e in
    let moved : RepoSet = record rs { poll = rs.poll + length replies } in
    (
      t,
      ap (λ (q : RepoSet). (queued_jobs reply q).0) (after_polls_lem replies rs (omega arith))
          ∙ ap (λ (r : (List Job × Option RepoPollError) × RepoSet). r.0)
              (queued_jobs-rotated reply moved (omega arith))
          ∙ ap (λ (s : ℕ). poll_result (length rs.repos) (collect reply (rotated s rs.repos))) start
          ∙ ap
              (λ (rest : List Repo).
                poll_result (length rs.repos) (collect reply (rest ++ take i rs.repos)))
              d,
    )
