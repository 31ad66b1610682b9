-- ===== src/Chain/Timer.antt =====
-- chain/chain.go, manageState: the timer that wakes the loop over the chain's state.
pub mod Wakes
pub mod Deaf
use inca_go.Base.{
  ℕ, ◌+◌, ◌-◌, ◌*◌, Bool, true, false, ◌&&◌, Option, none, some, List, [], ◌∷◌, ltb, leb, ◌==◌,
  if◌then◌else◌,
}
use inca_go.Snapshot.{Snapshot}
use inca_go.Chain.Round.{second}

-- The variables of the loop: lastNextCheckTime, whether nextCheckCh is set, and nextCheckTimer: the
-- time at which it fires, if it runs, and whether its channel holds a value.
pub record Timer : Type 0 where
  pub last_next_check_time : ℕ
  pub listens : Bool
  pub deadline : Option ℕ
  pub held : Bool

unfoldable pub new_timer : ℕ → Timer
new_timer now = record {
  last_next_check_time = now + 5 * second;
  listens = false;
  deadline = some (now + 5 * second);
  held = false;
}

-- A time of the round that is still to come makes the next check earlier.
unfoldable pub earlier : ℕ → ℕ → ℕ → ℕ
earlier now time next = if ltb time next && ltb now time then time else next

unfoldable pub next_check_time : ℕ → ℕ → Option Snapshot → ℕ
unfolding earlier
next_check_time now last none = if ltb now last then last else now + 10 * second
next_check_time now last (some snap) =
    let next = if ltb now last then last else now + 10 * second in
    earlier now snap.round_start_time
      (earlier now snap.next_round_start_time (earlier now snap.round_end_time next))

-- The timer as it is at a time.
unfoldable pub at_time : ℕ → Timer → Timer
at_time now t = elim t.deadline [
  | none ↦ t
  | some d ↦ if leb d now then record t { deadline = none; held = true } else t
]

-- A nil channel has nothing to drain.
unfoldable pub drain : Timer → Timer
drain t = elim t.deadline [ some d ↦ t | none ↦ if t.listens then record t { held = false } else t ]

-- The part of the loop between manageStateOnce and the select: `now` is read first, the timer is
-- set at `later`.
unfoldable pub set_timer : ℕ → ℕ → Option Snapshot → Timer → Timer
unfolding next_check_time at_time drain
set_timer now later snap t =
    let next = next_check_time now t.last_next_check_time snap in
    if next == t.last_next_check_time then t else record (drain (at_time later t)) {
      last_next_check_time = next;
      listens = true;
      deadline = some (later + (next - now));
    }

-- What ends the select: recheckStateTrigger or the timer.
pub data Wake : Type 0 where
  triggered fired : Wake

-- The select, where it ends at `now`; `none` where the case is not ready then.
unfoldable pub wait : Wake → ℕ → Timer → Option Timer
unfolding at_time
wait triggered now t = some (at_time now t)
wait fired now t =
    let t' = at_time now t in
    if t'.listens && t'.held then some (record t' { held = false }) else none

-- One pass of the loop: the two readings of the clock, the snapshot, what ends the select and when.
pub record Pass : Type 0 where
  pub now : ℕ
  pub later : ℕ
  pub snap : Option Snapshot
  pub wake : Wake
  pub woken_at : ℕ

unfoldable pub manage_state : List Pass → Timer → Option Timer
unfolding set_timer wait
manage_state [] t = some t
manage_state (r ∷ rs) t = elim (wait r.wake r.woken_at (set_timer r.now r.later r.snap t)) [
  | none ↦ none
  | some t' ↦ manage_state rs t'
]
