-- ===== src/Runner/Reclaiming.antt =====
-- When a registration is deleted, and when it is kept.
use multirunner.Common.{
  count_if, ==_refl, ℕ, ◌≡◌, ◌≢◌, refl, Bool, true, false, not, ◌&&◌, ◌⊎◌, inl, inr, some, List, [],
  ◌∷◌, ◌==◌, any, ℤ, arith,
}
use multirunner.Runner.{
  Launched, started, failed_with_handle, failed_without_handle, Busy, not_found, unknown, busy,
  idle, Event, instance_started, instance_absent, waited, killed, asked, delete_runner, Deletion,
  deleted, already_gone, delete_failed, Replies, deregister, reclaim_if_idle,
  reclaim_after_failed_kill, terminate, after_wait, after_launch, run_once,
}

-- Whether the instance may be running a job after these events, the newest first: it started, and
-- nothing since has shown that it ended or that GitHub has it as idle.
abbrev pub may_run : List Event → Bool
may_run [] = false
may_run (instance_started ∷ events) = true
may_run (instance_absent ∷ events) = false
may_run (waited true ∷ events) = may_run events
may_run (waited false ∷ events) = false
may_run (killed true ∷ events) = false
may_run (killed false ∷ events) = may_run events
may_run (asked idle ∷ events) = false
may_run (asked not_found ∷ events) = may_run events
may_run (asked unknown ∷ events) = may_run events
may_run (asked busy ∷ events) = may_run events
may_run (delete_runner id d ∷ events) = may_run events

-- DeleteRunner was called; it was called for this registration, and answered like this.
abbrev pub is_deletion : Event → Bool
is_deletion (delete_runner id d) = true
is_deletion _ = false

abbrev pub same_answer : Deletion → Deletion → Bool
same_answer deleted deleted = true
same_answer already_gone already_gone = true
same_answer delete_failed delete_failed = true
same_answer _ _ = false

abbrev pub is_deletion_of : ℕ → Deletion → Event → Bool
is_deletion_of id d (delete_runner i e) = (i == id) && same_answer e d
is_deletion_of id d _ = false

-- No deletion was asked for while the instance may have been running.
abbrev pub severs_nothing : List Event → Bool
severs_nothing [] = true
severs_nothing (e ∷ events) = not (is_deletion e && may_run events) && severs_nothing events

-- DeleteRunner was called once, for the registration, and gave the reply; or it was not called, and the
-- kill failed and GitHub did not call the runner idle.
abbrev pub Reclaimed : ℕ → Replies → List Event → Type 0
Reclaimed id r events =
    ((count_if is_deletion events ≡ 1) × (any (is_deletion_of id r.deletion) events ≡ true))
    ⊎ ((count_if is_deletion events ≡ 0) × (r.kill_succeeds ≡ false) × (r.busy_reply ≢ idle))

-- What has to hold of a trace that the run of a registration leaves.
abbrev Good : ℕ → Bool → Busy → Deletion → List Event → Type 0
Good id kill b d events =
    (severs_nothing events ≡ true)
    × (((count_if is_deletion events ≡ 1) × (any (is_deletion_of id d) events ≡ true))
        ⊎ ((count_if is_deletion events ≡ 0) × (kill ≡ false) × (b ≢ idle)))

same_answer_refl : (d : Deletion) → same_answer d d ≡ true
same_answer_refl deleted = refl
same_answer_refl already_gone = refl
same_answer_refl delete_failed = refl

module _ (id : ℕ) (registered : (id == 0) ≡ false) where
  deregister-Good :
      (kill : Bool) (b : Busy) (d : Deletion) (events : List Event)
      → severs_nothing events ≡ true
      → may_run events ≡ false
      → count_if is_deletion events ≡ 0
      → Good id kill b d (deregister d id events)
  unfolding deregister
  deregister-Good kill b d events s m c =
      rw registered (
        ground (arith, s, m),
        inl (omega (arith, c), ground (arith, ==_refl id, same_answer_refl d)),
      )

  terminate-Good :
      (kill : Bool) (b : Busy) (d : Deletion) (events : List Event)
      → severs_nothing events ≡ true
      → count_if is_deletion events ≡ 0
      → Good id kill b d (terminate kill b d id events)
  unfolding terminate reclaim_after_failed_kill reclaim_if_idle
  terminate-Good true b d events s c =
      deregister-Good true b d (killed true ∷ events) s refl (omega (arith, c))
  terminate-Good false idle d events s c =
      rw registered (s, inl (omega (arith, c), ground (arith, ==_refl id, same_answer_refl d)))
  terminate-Good false not_found d events s c =
      rw registered (s, inr (omega (arith, c), refl, λ e. cc))
  terminate-Good false unknown d events s c =
      rw registered (s, inr (omega (arith, c), refl, λ e. cc))
  terminate-Good false busy d events s c = rw registered (s, inr (omega (arith, c), refl, λ e. cc))

  after_wait-Good :
      (cancelled failed kill : Bool) (b : Busy) (d : Deletion) (code : ℤ)
      → Good id kill b d
          (after_wait cancelled failed kill b d code id
            (waited failed ∷ instance_started ∷ [])).trace
  unfolding after_wait
  after_wait-Good true failed kill b d code =
      terminate-Good kill b d (waited failed ∷ instance_started ∷ []) refl refl
  after_wait-Good false true kill b d code =
      terminate-Good kill b d (waited true ∷ instance_started ∷ []) refl refl
  after_wait-Good false false kill b d code =
      deregister-Good kill b d (waited false ∷ instance_started ∷ []) refl refl refl

  after_launch-Good :
      (l : Launched) (r : Replies)
      → Good id r.kill_succeeds r.busy_reply r.deletion (after_launch l r id).trace
  unfolding after_launch
  after_launch-Good started r =
      after_wait-Good r.cancelled r.wait_failed r.kill_succeeds r.busy_reply r.deletion r.exit_code
  after_launch-Good failed_with_handle r =
      terminate-Good r.kill_succeeds r.busy_reply r.deletion (instance_started ∷ []) refl refl
  after_launch-Good failed_without_handle r =
      deregister-Good r.kill_succeeds r.busy_reply r.deletion (instance_absent ∷ []) refl refl refl

-- Once a registration (with an id other than 0) was made, RunOnce never asks GitHub to delete it while
-- the instance may be running a job: only after a clean exit, a confirmed kill, a launch that left no
-- instance, or when GitHub calls the runner idle. On every path it asks for that once, for this
-- registration, and whatever GitHub replies it does not ask again; unless a kill failed and GitHub did
-- not call the runner idle, where it never asks.
pub run_once-Reclaimed :
    (r : Replies) (id : ℕ)
    → r.jit ≡ some id
    → (id == 0) ≡ false
    → (severs_nothing (run_once r).trace ≡ true) × Reclaimed id r (run_once r).trace
unfolding run_once
run_once-Reclaimed r id e n = rw (e, run_once) (after_launch-Good id n r.launched r)
