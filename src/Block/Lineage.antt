-- ===== src/Block/Lineage.antt =====
-- A line of blocks, each accepted by ValidateChild after the one before.
use inca_go.Base.{ℕ, zero, suc, ◌+◌, ◌%◌, ◌^◌, ◌≤◌, ◌<◌, ◌≡◌, Bool, true, Option, arith}
use inca_go.Wire.{Env}
use inca_go.Result.{ok}
use inca_go.Block.{Block, BlockValidator, validate_child}
use inca_go.Block.Validate.{Follows, validate_child-ok_iff}

module _ (e : Env) where
  -- `b` is `n` blocks above `a`; the block validator may be another for each block.
  pub data Line (a : Block) : ℕ → Block → Type 0 where
    start : Line a zero a
    grow :
        (n : ℕ) (b c : Block) (v : Option BlockValidator) (mark : Bool)
        → Line a n b
        → validate_child e b c v ≡ ok mark
        → Line a (suc n) c

  -- What every block of a line has of its first one.
  pub record Descends (a : Block) (n : ℕ) (b : Block) : Type 0 where
    pub height : b.header.round_info.height ≡ (a.header.round_info.height + n) % 2 ^ 64
    pub not_before : a.header.block_ts ≤ b.header.block_ts
    pub same_genesis : e.ref_equals a.header.genesis_ref b.header.genesis_ref ≡ true
    pub same_config : e.ref_equals a.header.chain_config_ref b.header.chain_config_ref ≡ true

  -- Over any number of blocks that ValidateChild accepts one after another, whatever the block
  -- validators are: the height rises by one with each block, modulo 2 ^ 64, the time never falls,
  -- and the genesis and the configuration stay those of the first block. References are compared by
  -- an equality, and the height of the first block is a uint64.
  pub Line-Descends :
      (a b : Block) (n : ℕ)
      → ((x : ℕ) → e.ref_equals x x ≡ true)
      → ((x y z : ℕ) → e.ref_equals x y ≡ true → e.ref_equals y z ≡ true → e.ref_equals x z ≡ true)
      → a.header.round_info.height < 2 ^ 64
      → Line a n b
      → Descends a n b
  Line-Descends a b n same chain small start = record {
    height = omega arith;
    not_before = omega arith;
    same_genesis = same a.header.genesis_ref;
    same_config = same a.header.chain_config_ref;
  }
  Line-Descends a b n same chain small (grow m c d v mark line accepted) =
      let ih = Line-Descends a c m same chain small line in
      let f : Follows e c b = ((validate_child-ok_iff e c b v mark).0 accepted).0 in
      record {
        height = ground (arith, ih.height, f.height);
        not_before = omega (arith, ih.not_before, f.not_before);
        same_genesis =
            chain a.header.genesis_ref c.header.genesis_ref b.header.genesis_ref ih.same_genesis
              f.same_genesis;
        same_config =
            chain a.header.chain_config_ref c.header.chain_config_ref b.header.chain_config_ref
              ih.same_config f.same_config;
      }
