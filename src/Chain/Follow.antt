-- ===== src/Chain/Follow.antt =====
-- What a pass of manageStateOnce leaves: the chain follows the head of its segment.
use inca_go.Base.{ℕ, ◌≡◌, ◌≢◌, ◌⊎◌}
use inca_go.Wire.{Env}
use inca_go.Block.{Block}
use inca_go.World.{World}
use inca_go.Snapshot.{Snapshot}

-- The head that the chain has, and the segments in memory.
record Kept (w w' : World) : Type 0 where
  memory : w'.memory ≡ w.memory
  digest : w'.last_head_digest ≡ w.last_head_digest

module _ (e : Env) where
  -- The segment that a pass takes the head of, with the segments as they are in `v`.
  abbrev pub Next : ℕ → ℕ → World → Type 0
  Next old seg v =
      (((v.memory old).segment_next ≡ 0) × (seg ≡ old))
      ⊎ (((v.memory old).segment_next ≢ 0) × (seg ≡ (v.memory old).segment_next))
