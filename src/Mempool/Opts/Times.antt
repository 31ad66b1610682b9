-- ===== src/Mempool/Opts/Times.antt =====
-- The times of the proposer's options, and when a block is full.
use inca_go.Base.{ℕ, ◌/◌, ◌≤◌, ◌≡◌, inl, inr, Bool-cases, if◌then◌else◌, ◌==◌, none, some, arith}
use inca_go.Result.{ok}
use inca_go.Mempool.Opts.{Opts, whole, validate_opts, wait_until, collect_deadline}

truncated_lem : (r : ℕ) → r ≤ whole → r / whole ≡ (if r == whole then 1 else 0)
truncated_lem r h = elim (Bool-cases (r == whole)) [
  | inl all ↦ rw all (ground arith)
  | inr part ↦ rw part (ground arith)
]

-- Options that Validate accepts know two times only: a ratio below one is cut off to nothing, so
-- the waiting ends at the start of the round, which is the deadline too; a ratio of one is the end of
-- the round. There is no deadline where its ratio is 0.
validate_opts-times :
    (o : Opts) (start end : ℕ)
    → validate_opts o ≡ ok tt
    → start ≤ end
    → (wait_until o start end ≡ (if o.wait_ratio == whole then end else start))
      × (collect_deadline o start end ≡ (
          if o.deadline_ratio == 0
          then none
          else some (if o.deadline_ratio == whole then end else start)))
unfolding validate_opts wait_until collect_deadline
validate_opts-times o start end valid order =
    (ground (arith, truncated_lem o.wait_ratio), ground (arith, truncated_lem o.deadline_ratio))
