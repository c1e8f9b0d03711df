-- ===== src/ScaleSet/Cleanup/Completes.antt =====
-- What a cleanup has done when it is over, and what it has done by the time it fails.
use multirunner.Common.{
  ◌≡◌, Bool, true, false, Option, none, some, ℤ, ◌⊎◌, if_elim, arith, Option-cases, inl, inr,
}
use multirunner.ScaleSet.Errors.{Err}
use multirunner.ScaleSet.State.{RunnerState, Env}
use multirunner.ScaleSet.Cleanup.{
  Action, Progress, ◌>>◌, finish_begin, mark_terminated, finish_terminate, remove_runner,
  finish_deregister, finish_remove, unless_cleaned, finish_parts, finish_state,
}
use multirunner.ScaleSet.Cleanup.Follows.{deregister_remove-Follows}

-- The registration is gone, or there is none to remove.
abbrev pub IsDeregistered : RunnerState → Type 0
IsDeregistered s =
    (s.runner_id ≡ 0) ⊎ ((s.needs_deregistration ≡ false) ⊎ (s.registration_removed ≡ true))

-- A runner that has left the map was terminated, reported and deregistered; one that was
-- terminated holds no slot and was reported.
pub record Orderly (s : RunnerState) : Type 0 where
  pub cleaned_last : (s.cleaned ≡ false) ⊎ ((s.terminated ≡ true) × IsDeregistered s)
  pub terminated_free :
      (s.terminated ≡ false) ⊎ ((s.occupies_capacity ≡ false) × (s.stop_reported ≡ true))

>>-elim :
    (P : Option Err × Progress → Type 0) (a b : Action) (p : Progress)
    → ((a p).0 ≡ none → P (b (a p).1))
    → ((x : Err) → (a p).0 ≡ some x → P (some x, (a p).1))
    → P ((a >> b) p)
>>-elim P a b p f g = elim (Option-cases (a p).0) [
  | inl e ↦ rw (e, ◌>>◌) (f e)
  | inr (x, e) ↦ rw (e, ◌>>◌) (g x e)
]

abbrev Open : RunnerState → Type 0
Open s = Orderly s × (s.cleaned ≡ false)

begin-Open :
    (code : ℤ) (err : Option Err) (terminate : Bool) (p : Progress)
    → Open p.state
    → Open (finish_begin code err terminate p).1.state
unfolding finish_begin
begin-Open code err terminate p h = ground (arith, h.0.terminated_free)

terminate-Open :
    (env : Env) (terminate : Bool) (p : Progress)
    → Open p.state
    → Open (finish_terminate env terminate p).1.state
      × ((finish_terminate env terminate p).0 ≡ none
          → (finish_terminate env terminate p).1.state.terminated ≡ true)
unfolding finish_terminate mark_terminated
terminate-Open env terminate p h = ground (arith, h.0.terminated_free)

deregister-Open :
    (env : Env) (p : Progress)
    → Open p.state
    → p.state.terminated ≡ true
    → Open (finish_deregister env p).1.state
      × ((finish_deregister env p).1.state.terminated ≡ true)
      × ((finish_deregister env p).0 ≡ none → IsDeregistered (finish_deregister env p).1.state)
unfolding finish_deregister
deregister-Open env p h t = ground (arith, h.0.terminated_free)

remove-Orderly :
    (env : Env) (p : Progress)
    → Open p.state
    → p.state.terminated ≡ true
    → IsDeregistered p.state
    → Orderly (finish_remove env p).1.state
unfolding finish_remove
remove-Orderly env p h t d = ground (arith, h.0.terminated_free)

parts-Orderly :
    (env : Env) (code : ℤ) (err : Option Err) (terminate : Bool) (p : Progress)
    → Open p.state
    → Orderly (finish_parts env code err terminate p).1.state
unfolding finish_parts
parts-Orderly env code err terminate p h =
    >>-elim After (finish_begin code err terminate) (terminates >> (deregisters >> removes)) p
      (λ _. >>-elim After terminates (deregisters >> removes) p1 after_terminate (λ x _. h2.0.0))
      (λ x _. h1.0)
  where
    After : Option Err × Progress → Type 0
    After r = Orderly r.1.state

    terminates : Action
    terminates = finish_terminate env terminate

    deregisters : Action
    deregisters = finish_deregister env

    removes : Action
    removes = finish_remove env

    p1 : Progress
    p1 = (finish_begin code err terminate p).1

    p2 : Progress
    p2 = (terminates p1).1

    h1 : Open p1.state
    h1 = begin-Open code err terminate p h

    h2 : Open p2.state × ((terminates p1).0 ≡ none → p2.state.terminated ≡ true)
    h2 = terminate-Open env terminate p1 h1

    after_terminate : (terminates p1).0 ≡ none → After ((deregisters >> removes) p2)
    after_terminate e =
        let h3 = deregister-Open env p2 h2.0 (h2.1 e) in
        >>-elim After deregisters removes p2 (λ d. remove-Orderly env _ h3.0 h3.1 (h3.2 d))
          (λ x _. h3.0.0)

-- Whatever the backend and GitHub answer, a cleanup keeps this order.
pub finish_state-Orderly :
    (env : Env) (code : ℤ) (err : Option Err) (terminate : Bool) (p : Progress)
    → Orderly p.state
    → Orderly (finish_state env code err terminate p).1.state
unfolding finish_state unless_cleaned
finish_state-Orderly env code err terminate p h =
    if_elim (λ (r : Option Err × Progress). Orderly r.1.state) p.state.cleaned _ _ (λ _. h)
      λ e. parts-Orderly env code err terminate p (h, e)

-- The answers that let a cleanup of this runner through.
pub record Answers (env : Env) (s : RunnerState) : Type 0 where
  pub kills : env.kill s.handle ≡ none
  pub deregisters : remove_runner env s.runner_id ≡ none
  pub stores : env.has_store ≡ true
  pub removes : env.remove_owned s.handle ≡ none

-- The runner is out of the map, holds no slot and no registration that it should not have.
abbrev pub IsFinished : RunnerState → Type 0
IsFinished s =
    (s.cleaned ≡ true)
    × (s.terminated ≡ true)
    × (s.occupies_capacity ≡ false)
    × (s.stop_reported ≡ true)
    × IsDeregistered s

begin-Answers :
    (env : Env) (code : ℤ) (err : Option Err) (p : Progress)
    → Answers env p.state
    → let r = finish_begin code err true p in (r.0 ≡ none) × Answers env r.1.state
unfolding finish_begin
begin-Answers env code err p a = ground arith

terminate-Answers :
    (env : Env) (p : Progress)
    → Answers env p.state
    → Open p.state
    → let r = finish_terminate env true p in
      (r.0 ≡ none) × Answers env r.1.state × (r.1.state.terminated ≡ true)
unfolding finish_terminate mark_terminated
terminate-Answers env p a h = ground arith

deregister-Answers :
    (env : Env) (p : Progress)
    → Answers env p.state
    → let r = finish_deregister env p in (r.0 ≡ none) × Answers env r.1.state
unfolding finish_deregister
deregister-Answers env p a = ground arith

remove-Answers :
    (env : Env) (p : Progress) → Answers env p.state → (finish_remove env p).1.state.cleaned ≡ true
unfolding finish_remove
remove-Answers env p a = ground arith

parts-Answers :
    (env : Env) (code : ℤ) (err : Option Err) (p : Progress)
    → Open p.state
    → Answers env p.state
    → (finish_parts env code err true p).1.state.cleaned ≡ true
unfolding finish_parts
parts-Answers env code err p h a =
    let h1 = begin-Open code err true p h in
    let a1 = begin-Answers env code err p a in
    let p1 = (finish_begin code err true p).1 in
    let a2 = terminate-Answers env p1 a1.1 h1 in
    let p2 = (finish_terminate env true p1).1 in
    let a3 = deregister-Answers env p2 a2.1 in
    rw (a1.0, ◌>>◌) (rw (a2.0, ◌>>◌) (rw (a3.0, ◌>>◌) (remove-Answers env _ a3.1)))

Orderly-IsFinished : (s : RunnerState) → Orderly s → s.cleaned ≡ true → IsFinished s
Orderly-IsFinished s h c = ground (arith, h.cleaned_last, h.terminated_free)

-- A cleanup converges: once the backend and GitHub answer, one more call, with Kill, leaves a
-- runner that any earlier failures had left half cleaned out of the map, terminated, without a
-- slot, reported, and without a registration that was to be removed.
pub finish_state-Answers :
    (env : Env) (code : ℤ) (err : Option Err) (p : Progress)
    → Orderly p.state
    → Answers env p.state
    → IsFinished (finish_state env code err true p).1.state
unfolding finish_state unless_cleaned
finish_state-Answers env code err p h a =
    Orderly-IsFinished _ (finish_state-Orderly env code err true p h) (
      if_elim (λ (r : Option Err × Progress). r.1.state.cleaned ≡ true) p.state.cleaned _ _ (λ e. e)
        (λ e. parts-Answers env code err p (h, e) a))

begin-lives :
    (code : ℤ) (err : Option Err) (p : Progress)
    → p.state.terminated ≡ false
    → let r = finish_begin code err false p in (r.0 ≡ none) × (r.1.state.terminated ≡ false)
unfolding finish_begin
begin-lives code err p h = ground arith

terminate-frees :
    (env : Env) (p : Progress)
    → p.state.terminated ≡ false
    → let r = finish_terminate env false p in (r.0 ≡ none) × (r.1.state.occupies_capacity ≡ false)
unfolding finish_terminate mark_terminated
terminate-frees env p h = ground arith

parts-free :
    (env : Env) (code : ℤ) (err : Option Err) (p : Progress)
    → p.state.terminated ≡ false
    → (finish_parts env code err false p).1.state.occupies_capacity ≡ false
unfolding finish_parts
parts-free env code err p h =
    let b = begin-lives code err p h in
    let p1 = (finish_begin code err false p).1 in
    let t = terminate-frees env p1 b.1 in
    let p2 = (finish_terminate env false p1).1 in
    rw (b.0, ◌>>◌) (rw (t.0, ◌>>◌) (ground (arith, deregister_remove-Follows env p2, t.1)))

-- The cleanup of a runner that exited by itself frees its slot, whatever is answered.
pub finish_state-frees :
    (env : Env) (code : ℤ) (err : Option Err) (p : Progress)
    → p.state.terminated ≡ false
    → p.state.cleaned ≡ false
    → (finish_state env code err false p).1.state.occupies_capacity ≡ false
unfolding finish_state unless_cleaned
finish_state-frees env code err p h c =
    if_elim (λ (r : Option Err × Progress). r.1.state.occupies_capacity ≡ false) p.state.cleaned _ _
      (λ e. cc) (λ _. parts-free env code err p h)
