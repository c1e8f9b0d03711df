-- ===== src/ScaleSet/Cleanup/Follows.antt =====
-- What every part of a runner's cleanup leaves alone, and which way it moves the rest.
use multirunner.Common.{
  ℕ, ◌+◌, ◌≤◌, ◌≡◌, Bool, true, false, not, Option, List, ℤ, bit, count_if, arith, Option-cases,
  inl, inr,
}
use multirunner.ScaleSet.Errors.{Err}
use multirunner.ScaleSet.State.{Effect, on_start, on_stop, launched, Env}
use multirunner.ScaleSet.Cleanup.{
  Action, Progress, ◌>>◌, finish_begin, mark_terminated, finish_terminate, finish_deregister,
  finish_remove, unless_cleaned, finish_parts, finish_state,
}

abbrev pub is_start : Effect → Bool
is_start on_start = true
is_start _ = false

abbrev pub is_stop : Effect → Bool
is_stop (on_stop code err) = true
is_stop _ = false

abbrev pub is_launch : Effect → Bool
is_launch (launched h) = true
is_launch _ = false

-- How often the hooks were called, and how many runners were launched.
abbrev pub starts : List Effect → ℕ
starts = count_if is_start

abbrev pub stops : List Effect → ℕ
stops = count_if is_stop

abbrev pub launches : List Effect → ℕ
launches = count_if is_launch

pub record Follows (p q : Progress) : Type 0 where
  pub same_handle : q.state.handle ≡ p.state.handle
  pub same_id : q.state.runner_id ≡ p.state.runner_id
  pub occupies_falls : bit q.state.occupies_capacity ≤ bit p.state.occupies_capacity
  pub cleaned_rises : bit p.state.cleaned ≤ bit q.state.cleaned
  pub terminated_rises : bit p.state.terminated ≤ bit q.state.terminated
  pub removed_rises : bit p.state.registration_removed ≤ bit q.state.registration_removed
  pub stops_match :
      stops q.trace + bit (not q.state.stop_reported)
      ≡ stops p.trace + bit (not p.state.stop_reported)
  pub same_starts : starts q.trace ≡ starts p.trace
  pub same_launches : launches q.trace ≡ launches p.trace

Follows-refl : (p : Progress) → Follows p p
Follows-refl p = ground arith

Follows-trans : {p q r : Progress} → Follows p q → Follows q r → Follows p r
Follows-trans f g = omega arith

Follows->> :
    (a b : Action)
    → ((p : Progress) → Follows p (a p).1)
    → ((p : Progress) → Follows p (b p).1)
    → (p : Progress) → Follows p ((a >> b) p).1
Follows->> a b f g p = elim (Option-cases (a p).0) [
  | inl e ↦ rw (e, ◌>>◌) (Follows-trans (f p) (g (a p).1))
  | inr (x, e) ↦ rw (e, ◌>>◌) (f p)
]

unless_cleaned-Follows :
    (a : Action)
    → ((p : Progress) → Follows p (a p).1)
    → (p : Progress) → Follows p (unless_cleaned a p).1
unfolding unless_cleaned
unless_cleaned-Follows a f p = ground (arith, f p)

finish_begin-Follows :
    (code : ℤ) (err : Option Err) (terminate : Bool) (p : Progress)
    → Follows p (finish_begin code err terminate p).1
unfolding finish_begin
finish_begin-Follows code err terminate p = ground arith

mark_terminated-Follows : (p : Progress) → Follows p (mark_terminated p).1
unfolding mark_terminated
mark_terminated-Follows p = ground arith

finish_terminate-Follows :
    (env : Env) (terminate : Bool) (p : Progress) → Follows p (finish_terminate env terminate p).1
unfolding finish_terminate
finish_terminate-Follows env terminate p = ground arith

finish_deregister-Follows : (env : Env) (p : Progress) → Follows p (finish_deregister env p).1
unfolding finish_deregister
finish_deregister-Follows env p = ground arith

finish_remove-Follows : (env : Env) (p : Progress) → Follows p (finish_remove env p).1
unfolding finish_remove
finish_remove-Follows env p = ground arith

pub deregister_remove-Follows :
    (env : Env) (p : Progress) → Follows p ((finish_deregister env >> finish_remove env) p).1
deregister_remove-Follows env =
    Follows->> (finish_deregister env) (finish_remove env) (finish_deregister-Follows env)
      (finish_remove-Follows env)

pub finish_state-Follows :
    (env : Env) (code : ℤ) (err : Option Err) (terminate : Bool) (p : Progress)
    → Follows p (finish_state env code err terminate p).1
unfolding finish_state
finish_state-Follows env code err terminate =
    unless_cleaned-Follows (finish_parts env code err terminate) (
      Follows->> begin (terminates >> (deregisters >> finish_remove env))
        (finish_begin-Follows code err terminate)
        (Follows->> terminates (deregisters >> finish_remove env)
          (finish_terminate-Follows env terminate) (deregister_remove-Follows env)))
  where
    begin : Action
    begin = finish_begin code err terminate

    terminates : Action
    terminates = finish_terminate env terminate

    deregisters : Action
    deregisters = finish_deregister env
