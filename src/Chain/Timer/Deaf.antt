-- ===== src/Chain/Timer/Deaf.antt =====
-- The wait that the timer does not end.
use inca_go.Base.{
  ℕ, ◌+◌, ◌*◌, ◌≤◌, ◌<◌, ◌≡◌, refl, ◌⊎◌, inl, inr, false, Option, none, some, List, [], ◌∷◌, arith,
  All,
}
use inca_go.Snapshot.{Snapshot}
use inca_go.Chain.Round.{second}
use inca_go.Chain.Timer.{
  Timer, new_timer, earlier, next_check_time, at_time, set_timer, Wake, triggered, fired, wait,
  Pass, manage_state,
}
use inca_go.Chain.Timer.Wakes.{at_time-listens}

-- Nothing that is still to come is before the first planned check.
abbrev Later : ℕ → ℕ → ℕ → Type 0
Later now start time = (time ≤ now) ⊎ (start + 5 * second ≤ time)

abbrev pub Far : ℕ → ℕ → Option Snapshot → Type 0
Far start now none = Unit
Far start now (some snap) =
    Later now start snap.round_start_time
    × Later now start snap.round_end_time
    × Later now start snap.next_round_start_time

-- The turns of the first five seconds.
abbrev pub Early : ℕ → List Pass → Type 0
Early start = All (λ (r : Pass). (r.now < start + 5 * second) × Far start r.now r.snap)

next-Far :
    (start now : ℕ) (snap : Option Snapshot)
    → now < start + 5 * second
    → Far start now snap
    → next_check_time now (start + 5 * second) snap ≡ start + 5 * second
unfolding next_check_time earlier
next-Far start now none early far = ground arith
next-Far start now (some snap) early (a, b, c) = ground (arith, a, b, c)

set_timer-Far :
    (start now later : ℕ) (snap : Option Snapshot) (t : Timer)
    → now < start + 5 * second
    → Far start now snap
    → t.last_next_check_time ≡ start + 5 * second
    → set_timer now later snap t ≡ t
unfolding set_timer
set_timer-Far start now later snap t early far planned =
    ground (arith, planned, next-Far start now snap early far)

wait_deaf :
    (now : ℕ) (wake : Wake) (t : Timer)
    → t.listens ≡ false
    → (wait wake now t ≡ none)
      ⊎ ((t' : Timer) × (wait wake now t ≡ some t')
          × (t'.listens ≡ false)
          × (t'.last_next_check_time ≡ t.last_next_check_time))
unfolding wait at_time
wait_deaf now fired t deaf = inl (ground arith)
wait_deaf now triggered t deaf = inr (at_time now t, refl, ground arith, ground arith)

manage_state_deaf :
    (start : ℕ) (turns : List Pass) (t t' : Timer)
    → Early start turns
    → t.listens ≡ false
    → t.last_next_check_time ≡ start + 5 * second
    → manage_state turns t ≡ some t'
    → (t'.listens ≡ false) × (t'.last_next_check_time ≡ start + 5 * second)
unfolding manage_state
manage_state_deaf start [] t t' early deaf planned h = (ground arith, ground arith)
manage_state_deaf start (r ∷ rs) t t' ((soon, far), early) deaf planned h =
    let same = set_timer-Far start r.now r.later r.snap t soon far planned in
    elim (wait_deaf r.woken_at r.wake t deaf) [
      | inl stuck ↦ absurd (ground (arith, same, stuck))
      | inr (u, woken, deaf', kept) ↦
          manage_state_deaf start rs u t' early deaf' (ground arith) (ground (arith, same, woken))
    ]

-- The timer never ends a wait of the first five seconds where no start or end of a round falls into
-- them: the loop then waits, however long, for a trigger.
pub first_wait_deaf :
    (start : ℕ) (turns : List Pass) (t : Timer) (now later : ℕ) (snap : Option Snapshot) (at : ℕ)
    → Early start turns
    → manage_state turns (new_timer start) ≡ some t
    → now < start + 5 * second
    → Far start now snap
    → wait fired at (set_timer now later snap t) ≡ none
unfolding new_timer wait
first_wait_deaf start turns t now later snap at early run soon far =
    let (deaf, planned) = manage_state_deaf start turns (new_timer start) t early refl refl run in
    rw (set_timer-Far start now later snap t soon far planned)
      (ground (arith, at_time-listens at t, deaf))
