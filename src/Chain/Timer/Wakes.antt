-- ===== src/Chain/Timer/Wakes.antt =====
-- When the timer of the chain's loop wakes it.
use inca_go.Base.{
  ℕ, ◌+◌, ◌-◌, ◌*◌, ◌≤◌, ◌<◌, ◌≡◌, ◌≢◌, refl, subst, ◌⊎◌, inl, inr, true, false, Option, none, some,
  List, [], ◌∷◌, arith, Bool-cases, Option-cases, leb, ◌==◌,
}
use inca_go.Snapshot.{Snapshot}
use inca_go.Chain.Round.{second}
use inca_go.Chain.Timer.{
  Timer, new_timer, earlier, next_check_time, at_time, set_timer, Wake, triggered, fired, wait,
  Pass, manage_state,
}

-- A time is not let pass.
abbrev pub NotMissed : ℕ → ℕ → ℕ → Type 0
NotMissed now next time = now < time → next ≤ time

abbrev pub NoneMissed : ℕ → ℕ → Option Snapshot → Type 0
NoneMissed now next none = Unit
NoneMissed now next (some snap) =
    NotMissed now next snap.round_start_time
    × NotMissed now next snap.round_end_time
    × NotMissed now next snap.next_round_start_time

-- The next check is in the future, at most ten seconds away or as late as it was planned before, and
-- not behind a start or an end of a round that is still to come.
next_check_time_lem :
    (now last : ℕ) (snap : Option Snapshot)
    → let next = next_check_time now last snap in
      (now < next) × ((next ≤ now + 10 * second) ⊎ (next ≤ last)) × NoneMissed now next snap
unfolding next_check_time earlier
next_check_time_lem now last none = (ground arith, ground arith, tt)
next_check_time_lem now last (some snap) =
    (ground arith, ground arith, (λ h. ground arith, λ h. ground arith, λ h. ground arith))

-- The timer runs until the planned check, or at most `lag` longer.
abbrev pub Running : ℕ → Timer → Type 0
Running lag t =
    (d : ℕ) × (t.deadline ≡ some d)
    × (t.last_next_check_time ≤ d)
    × (d ≤ t.last_next_check_time + lag)

-- Where the loop listens to the timer, it runs, or the planned check is not in the future.
abbrev Ready : ℕ → ℕ → Timer → Type 0
Ready lag clock t = t.listens ≡ true → Running lag t ⊎ (t.last_next_check_time ≤ clock)

-- The clock does not go back, and between the reading of the clock and the setting of the timer less
-- than `lag` goes by.
abbrev pub Timely : ℕ → ℕ → List Pass → Type 0
Timely lag clock [] = Unit
Timely lag clock (r ∷ rs) =
    (clock ≤ r.now)
    × (r.now ≤ r.later)
    × (r.later ≤ r.now + lag)
    × (r.later ≤ r.woken_at)
    × Timely lag r.woken_at rs

abbrev pub clock_after : ℕ → List Pass → ℕ
clock_after clock [] = clock
clock_after clock (r ∷ rs) = clock_after r.woken_at rs

set_timer-Running :
    (lag clock now later : ℕ) (snap : Option Snapshot) (t : Timer)
    → Ready lag clock t
    → clock ≤ now
    → now ≤ later
    → later ≤ now + lag
    → (set_timer now later snap t).listens ≡ true
    → Running lag (set_timer now later snap t)
unfolding set_timer
set_timer-Running lag clock now later snap t ready a b c h =
    let next = next_check_time now t.last_next_check_time snap in
    let future : now < next = (next_check_time_lem now t.last_next_check_time snap).0 in
    elim (Bool-cases (next == t.last_next_check_time)) [
      | inl same ↦ rw same (elim (ready (rw same at h)) [
        | inl running ↦ running
        | inr past ↦ absurd (ground (arith, same, future, past))
      ])
      | inr moved ↦
          rw moved (later + (next - now), refl, ground (arith, future), ground (arith, future))
    ]

pub at_time-listens : (now : ℕ) (t : Timer) → (at_time now t).listens ≡ t.listens
unfolding at_time
at_time-listens now t = ground arith

at_time-Running :
    (lag now : ℕ) (t : Timer)
    → Running lag t
    → Running lag (at_time now t) ⊎ ((at_time now t).last_next_check_time ≤ now)
unfolding at_time
at_time-Running lag now t (d, found, low, high) = elim (Bool-cases (leb d now)) [
  | inl over ↦ inr (ground (arith, found, over, low))
  | inr runs ↦ inl (
    d,
    ground (arith, found, runs),
    ground (arith, found, runs, low),
    ground (arith, found, runs, high),
  )
]

wait-Ready :
    (lag now : ℕ) (wake : Wake) (t t' : Timer)
    → (t.listens ≡ true → Running lag t)
    → wait wake now t ≡ some t'
    → Ready lag now t'
unfolding wait
wait-Ready lag now triggered t t' running h listens =
    let same : at_time now t ≡ t' = ground arith in
    subst (λ x. Running lag x ⊎ (x.last_next_check_time ≤ now)) same
      (at_time-Running lag now t (running (ground (arith, same, at_time-listens now t))))
wait-Ready lag now fired t t' running h listens =
    let same : record (at_time now t) { held = false } ≡ t' = ground arith in
    subst (λ x. Running lag x ⊎ (x.last_next_check_time ≤ now)) same
      (at_time-Running lag now t (running (ground (arith, same, at_time-listens now t))))

manage_state-Ready :
    (lag clock : ℕ) (turns : List Pass) (t t' : Timer)
    → Ready lag clock t
    → Timely lag clock turns
    → manage_state turns t ≡ some t'
    → Ready lag (clock_after clock turns) t'
unfolding manage_state
manage_state-Ready lag clock [] t t' ready timely h =
    let same : t ≡ t' = ground arith in subst (Ready lag clock) same ready
manage_state-Ready lag clock (r ∷ rs) t t' ready (a, b, c, d, timely) h =
    let next = set_timer r.now r.later r.snap t in
    let running = set_timer-Running lag clock r.now r.later r.snap t ready a b c in
    elim (Option-cases (wait r.wake r.woken_at next)) [
      | inl stuck ↦ absurd (ground (arith, stuck))
      | inr (u, woken) ↦
          manage_state-Ready lag r.woken_at rs u t'
            (wait-Ready lag r.woken_at r.wake next u running woken) timely (ground (arith, woken))
    ]

new_timer-Ready : (lag now : ℕ) → Ready lag now (new_timer now)
unfolding new_timer
new_timer-Ready lag now listens = absurd (ground arith)

set_timer_listens :
    (now later : ℕ) (snap : Option Snapshot) (t : Timer)
    → (t.listens ≡ true)
      ⊎ (next_check_time now t.last_next_check_time snap ≢ t.last_next_check_time)
    → ((set_timer now later snap t).listens ≡ true)
      × ((set_timer now later snap t).last_next_check_time
          ≡ next_check_time now t.last_next_check_time snap)
unfolding set_timer
set_timer_listens now later snap t h =
    elim (Bool-cases (next_check_time now t.last_next_check_time snap == t.last_next_check_time)) [
      | inl same ↦ elim h [
        | inl listens ↦ (rw same listens, ground (arith, same))
        | inr differs ↦ absurd (differs (ground (arith, same)))
      ]
      | inr moved ↦ rw moved (refl, refl)
    ]

fires :
    (lag now : ℕ) (t : Timer)
    → t.listens ≡ true
    → Running lag t
    → t.last_next_check_time + lag ≤ now
    → (t' : Timer) × (wait fired now t ≡ some t')
unfolding wait at_time
fires lag now t listens (d, found, low, high) late =
    (record t { deadline = none; held = false }, ground (arith, listens, found, high, late))

-- After any passes of the loop, where the loop listens to its timer already, or the plan changes in
-- this pass: the timer ends the wait at the check that is planned, or at most `lag` after it, where
-- the clock does not go back and at most `lag` goes by between a reading of it and the setting of
-- the timer; and the plan is not behind a start or an end of a round that is still to come. The loop
-- does not listen before the plan has changed for the first time.
pub manage_state_wakes :
    (start lag : ℕ) (turns : List Pass) (t : Timer) (now later : ℕ) (snap : Option Snapshot)
    (at : ℕ)
    → Timely lag start turns
    → manage_state turns (new_timer start) ≡ some t
    → clock_after start turns ≤ now
    → now ≤ later
    → later ≤ now + lag
    → (t.listens ≡ true)
      ⊎ (next_check_time now t.last_next_check_time snap ≢ t.last_next_check_time)
    → next_check_time now t.last_next_check_time snap + lag ≤ at
    → NoneMissed now (next_check_time now t.last_next_check_time snap) snap
      × (woken : Timer) × (wait fired at (set_timer now later snap t) ≡ some woken)
manage_state_wakes start lag turns t now later snap at timely run a b c h late =
    let ready =
      manage_state-Ready lag start turns (new_timer start) t (new_timer-Ready lag start) timely
        run in
    let (listens, planned) = set_timer_listens now later snap t h in
    let running =
      set_timer-Running lag (clock_after start turns) now later snap t ready a b c listens in
    let (woken, ends) =
      fires lag at (set_timer now later snap t) listens running (ground (arith, planned, late)) in
    ((next_check_time_lem now t.last_next_check_time snap).2, woken, ends)
