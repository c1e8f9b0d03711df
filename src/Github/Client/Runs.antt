-- ===== src/Github/Client/Runs.antt =====
-- The runs that the loops over the listings gather: each id once, with the first run that has it.
use multirunner.Common.{
  Option, none, some, is_some, ==_iff, subst, ℕ, ◌≡◌, refl, ◌∙◌, ap, sym, true, false, List, [],
  ◌∷◌, ◌++◌, ◌==◌, Text, if◌then◌else◌, Bool-cases, Option-cases, inl, inr, arith,
}
use multirunner.Github.Client.{
  WorkflowRun, Listing, failed, last_page, page, seen, add_run, add_runs, list_runs, list_statuses,
}
use multirunner.Github.Client.Queued.{entries}

-- The first run of an id.
abbrev pub first_run : ℕ → List WorkflowRun → Option WorkflowRun
first_run id [] = none
first_run id (run ∷ runs) = if run.id == id then some run else first_run id runs

-- No two runs with one id.
abbrev pub Unique : List WorkflowRun → Type 0
Unique [] = Unit
Unique (run ∷ runs) = (seen run.id runs ≡ false) × Unique runs

seen_snoc :
    (id : ℕ) (runs : List WorkflowRun) (r : WorkflowRun)
    → seen id (runs ++ r ∷ []) ≡ (if seen id runs then true else (r.id == id))
seen_snoc id [] r = ground arith
seen_snoc id (s ∷ runs) r = ground (arith, seen_snoc id runs r)

snoc-Unique :
    (runs : List WorkflowRun) (r : WorkflowRun)
    → seen r.id runs ≡ false
    → Unique runs
    → Unique (runs ++ r ∷ [])
snoc-Unique [] r f u = (refl, tt)
snoc-Unique (s ∷ runs) r f u =
    (ground (arith, seen_snoc s.id runs r), snoc-Unique runs r (ground arith) u.1)

-- The first of two that is there.
abbrev or_else : Option WorkflowRun → Option WorkflowRun → Option WorkflowRun
or_else none o = o
or_else (some r) o = some r

or_else_assoc : (a b c : Option WorkflowRun) → or_else (or_else a b) c ≡ or_else a (or_else b c)
or_else_assoc none b c = refl
or_else_assoc (some r) b c = refl

first_run-append :
    (id : ℕ) (rs ss : List WorkflowRun)
    → first_run id (rs ++ ss) ≡ or_else (first_run id rs) (first_run id ss)
first_run-append id [] ss = refl
first_run-append id (r ∷ rs) ss = elim (Bool-cases (r.id == id)) [
  | inl e ↦ rw e refl
  | inr e ↦ rw e (first_run-append id rs ss)
]

pub first_run-seen : (id : ℕ) (runs : List WorkflowRun) → is_some (first_run id runs) ≡ seen id runs
first_run-seen id [] = refl
first_run-seen id (r ∷ runs) = elim (Bool-cases (r.id == id)) [
  | inl e ↦ rw e refl
  | inr e ↦ rw e (first_run-seen id runs)
]

-- What adding runs to others gives: each id once, with the first run that has it.
pub record Added (rs runs out : List WorkflowRun) : Type 0 where
  pub unique : Unique runs → Unique out
  pub firsts : (id : ℕ) → first_run id out ≡ or_else (first_run id runs) (first_run id rs)

append-Added :
    (rs ss runs mid out : List WorkflowRun)
    → Added rs runs mid
    → Added ss mid out
    → Added (rs ++ ss) runs out
append-Added rs ss runs mid out a b = record {
  unique = λ u. b.unique (a.unique u);
  firsts = λ id.
      b.firsts id
      ∙ ap (λ (o : Option WorkflowRun). or_else o (first_run id ss)) (a.firsts id)
      ∙ or_else_assoc (first_run id runs) (first_run id rs) (first_run id ss)
      ∙ ap (or_else (first_run id runs)) (sym (first_run-append id rs ss));
}

or_else-none : (o : Option WorkflowRun) → o ≡ or_else o none
or_else-none none = refl
or_else-none (some r) = refl

or_else-some : (o p : Option WorkflowRun) → is_some o ≡ true → o ≡ or_else o p
or_else-some none p h = cc
or_else-some (some r) p h = refl

no_more : (runs : List WorkflowRun) → Added [] runs runs
no_more runs = record { unique = λ u. u; firsts = λ id. or_else-none (first_run id runs) }

-- A run that is seen adds none.
seen_again :
    (id : ℕ) (run : WorkflowRun) (runs : List WorkflowRun)
    → seen run.id runs ≡ true
    → first_run id runs ≡ or_else (first_run id runs) (first_run id (run ∷ []))
seen_again id run runs e = elim (Bool-cases (run.id == id)) [
  | inl same ↦
      let known : seen id runs ≡ true =
        subst (λ n. seen n runs ≡ true) ((==_iff run.id id).0 same) e in
      or_else-some (first_run id runs) (first_run id (run ∷ [])) (first_run-seen id runs ∙ known)
  | inr other ↦ rw other (or_else-none (first_run id runs))
]

add_run-Added :
    (run : WorkflowRun) (runs : List WorkflowRun) → Added (run ∷ []) runs (add_run run runs)
unfolding add_run
add_run-Added run runs = elim (Bool-cases (seen run.id runs)) [
  | inl e ↦ rw e (record { unique = λ u. u; firsts = λ id. seen_again id run runs e })
  | inr e ↦ rw e (record {
    unique = λ u. snoc-Unique runs run e u;
    firsts = λ id. first_run-append id runs (run ∷ []);
  })
]

add_runs-Added : (rs runs : List WorkflowRun) → Added rs runs (add_runs rs runs)
unfolding add_runs
add_runs-Added [] runs = no_more runs
add_runs-Added (run ∷ rs) runs =
    append-Added (run ∷ []) rs runs (add_run run runs) (add_runs rs (add_run run runs))
      (add_run-Added run runs) (add_runs-Added rs (add_run run runs))

list_runs-Added :
    (listing : Listing WorkflowRun) (runs out : List WorkflowRun)
    → list_runs listing runs ≡ some out
    → Added (entries listing) runs out
unfolding list_runs
list_runs-Added failed runs out h = cc
list_runs-Added (last_page rs) runs out h = subst (Added rs runs) (cc h) (add_runs-Added rs runs)
list_runs-Added (page rs rest) runs out h =
    append-Added rs (entries rest) runs (add_runs rs runs) out (add_runs-Added rs runs)
      (list_runs-Added rest (add_runs rs runs) out h)

-- The runs that the listings of some statuses list.
abbrev pub all_listed : (Text → Listing WorkflowRun) → List Text → List WorkflowRun
all_listed runs_of [] = []
all_listed runs_of (status ∷ ss) = entries (runs_of status) ++ all_listed runs_of ss

pub list_statuses-Added :
    (runs_of : Text → Listing WorkflowRun) (ss : List Text) (runs out : List WorkflowRun)
    → list_statuses runs_of ss runs ≡ some out
    → Added (all_listed runs_of ss) runs out
unfolding list_statuses
list_statuses-Added runs_of [] runs out h = subst (Added [] runs) (cc h) (no_more runs)
list_statuses-Added runs_of (status ∷ ss) runs out h =
    elim (Option-cases (list_runs (runs_of status) runs)) [
      | inl e ↦ cc (rw e at h)
      | inr (mid, e) ↦
          append-Added (entries (runs_of status)) (all_listed runs_of ss) runs mid out
            (list_runs-Added (runs_of status) runs mid e)
            (list_statuses-Added runs_of ss mid out (rw e at h))
    ]
