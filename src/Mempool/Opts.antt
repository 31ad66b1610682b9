-- ===== src/Mempool/Opts.antt =====
-- utils/transaction/mempool/proposer.go and orderer_timestamp.go: the options of the proposer, the
-- times that it computes from a round, and the order of the pool.
pub mod Times
use inca_go.Base.{
  ℕ, ◌+◌, ◌-◌, ◌*◌, ◌/◌, Bool, true, false, not, ◌&&◌, Option, none, some, ltb, leb, ◌==◌,
  if◌then◌else◌,
}
use inca_go.Wire.{Ref}
use inca_go.Result.{Result, ok, err, ◌>>=◌, ◌>>◌, guard, or_fail, unresolved, unknown_tx, bad_ratio}
use inca_go.Transactions.{Bytes, Libs, Db, get_entry, unix_ms}

-- A ratio is a number of millionths: a float32 between 0 and 1 is only compared and truncated.
abbrev pub whole : ℕ
whole = 1000000

-- ProposerOpts
pub record Opts : Type 0 where
  pub deadline_ratio : ℕ
  pub wait_ratio : ℕ
  pub min_txs : ℕ
  pub max_txs : ℕ

unfoldable pub validate_opts : Opts → Result (Unit {0})
validate_opts o = do
  guard (leb o.deadline_ratio whole) bad_ratio
  guard (leb o.wait_ratio whole) bad_ratio

-- `time.Duration(ratio)`: the fraction is cut off.
abbrev truncated : ℕ → ℕ
truncated ratio = ratio / whole

-- The time before which no proposal is made because of its transactions.
unfoldable pub wait_until : Opts → ℕ → ℕ → ℕ
wait_until o start end = start + truncated o.wait_ratio * (end - start)

-- The deadline of the context under which transactions are collected; there may be none.
unfoldable pub collect_deadline : Opts → ℕ → ℕ → Option ℕ
collect_deadline o start end =
    if o.deadline_ratio == 0
    then none
    else some (start + (end - start) * truncated o.deadline_ratio)

-- The test at the end of TxLoop, after `count` transactions: whether the block is made now.
unfoldable pub is_full : Opts → ℕ → ℕ → ℕ → Bool
is_full o wait count now =
    let has_min = if o.min_txs == 0 then not (count == 0) else ltb o.min_txs count in
    has_min && (if leb o.max_txs count then true else ltb wait now)

-- TimestampOrderer: the priority of a transaction, which the database must have.
unfoldable pub timestamp_orderer : {D : Type 0} → Libs → Db D → D → Bytes → Result ℕ
timestamp_orderer l db d id = do
  entry ← get_entry l db id d
  info ← or_fail entry unknown_tx
  nm ← or_fail (l.follow_message info) unresolved
  ok (unix_ms nm)
