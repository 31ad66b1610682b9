-- ===== src/Chain/Windows.antt =====
-- The rounds follow one another without a gap, and the clock is in the current one.
use native.Mathlib.Nat.{div-add-mod, mod-lt}
use inca_go.Base.{ℕ, ◌+◌, ◌-◌, ◌/◌, ◌≤◌, ◌<◌, ◌≡◌, refl, ◌⊎◌, inl, inr, arith, ltb, Bool-cases}
use inca_go.Wire.{ChainConfig}
use inca_go.Chain.Round.{
  round_duration, round_start_duration, current_round, round_start_time, round_end_time,
  next_round_start_time,
}

-- Each round ends when the next one starts. The snapshot's next round start is one round later: it
-- is the start of the round after the next one.
round_end_lem :
    (conf : ChainConfig) (ts round : ℕ)
    → (round_end_time conf ts round ≡ round_start_time conf ts (round + 1))
      × (next_round_start_time conf ts round ≡ round_start_time conf ts (round + 2))
unfolding round_end_time next_round_start_time round_start_time
round_end_lem conf ts round = (omega arith, omega arith)

-- Where a round takes time and the clock is not behind the block, the current round never falls
-- below the last one; the clock has not passed its end; and a round
-- that is not the last one over again has begun, but for the time that a proposer has to wait after
-- a block.
current_round_lem :
    (conf : ChainConfig) (ts now last : ℕ)
    → 0 < round_duration conf
    → ts ≤ now
    → let r = current_round conf ts now last in
      (last ≤ r)
      × (now < round_end_time conf ts r)
      × ((r ≡ last) ⊎ (round_start_time conf ts r ≤ now + round_start_duration conf))
unfolding current_round round_end_time round_start_time
current_round_lem conf ts now last pos past =
    let d = round_duration conf in
    let q = (now - ts) / d in
    let split = div-add-mod (now - ts) d in
    let below = mod-lt (now - ts) {m = d} pos in
    elim (Bool-cases (ltb last q)) [
      | inl later ↦ rw later (ground arith, omega (arith, split, below), inr (omega (arith, split)))
      | inr same ↦
          let low : q ≤ last = ground arith in
          rw same (omega arith, grind (arith, split, below, low), inl refl)
    ]
