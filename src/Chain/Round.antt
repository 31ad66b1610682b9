-- ===== src/Chain/Round.antt =====
-- The rounds of chain.computeEmitSnapshot, in nanoseconds. The source multiplies in int64; the
-- statements are about products that fit.
use inca_go.Base.{ℕ, ◌+◌, ◌-◌, ◌*◌, ◌/◌, ltb, if◌then◌else◌}
use inca_go.Wire.{ChainConfig}

abbrev pub millisecond : ℕ
millisecond = 1000000

abbrev pub second : ℕ
second = 1000000000

unfoldable pub round_duration : ChainConfig → ℕ
round_duration conf = millisecond * conf.round_length

unfoldable pub round_start_duration : ChainConfig → ℕ
round_start_duration conf = millisecond * conf.min_propose_after_block

-- The round by the clock, or a later one that was reached before.
unfoldable pub current_round : ChainConfig → ℕ → ℕ → ℕ → ℕ
current_round conf last_block_ts now last_round =
    let expected = (now - last_block_ts) / round_duration conf in
    if ltb last_round expected then expected else last_round

unfoldable pub round_start_time : ChainConfig → ℕ → ℕ → ℕ
round_start_time conf last_block_ts round =
    last_block_ts + (round_start_duration conf + round_duration conf * round)

unfoldable pub round_end_time : ChainConfig → ℕ → ℕ → ℕ
unfolding round_start_time
round_end_time conf last_block_ts round =
    round_start_time conf last_block_ts round + round_duration conf

unfoldable pub next_round_start_time : ChainConfig → ℕ → ℕ → ℕ
unfolding round_end_time
next_round_start_time conf last_block_ts round =
    round_end_time conf last_block_ts round + round_duration conf
