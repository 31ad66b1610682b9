-- ===== src/Integrity/Network.antt =====
-- What comes from the network, on a node with its chain: node/node.go and peer/peer.go with
-- Chain.HandleBlockCommit as the handler of block commits.
use inca_go.Base.{ℕ, Bool, Option, none, some, List, [], ◌∷◌, map}
use inca_go.Wire.{Env}
use inca_go.Block.{BlockValidator}
use inca_go.World.{World}
use inca_go.Chain.{handle_block_commit}
use inca_go.Peer.{Calls}
use inca_go.Node.Inbox.{Inbox, Reader, receive, process_pub_sub, receive-world}
use inca_go.Integrity.{core, Sound, Good}
use inca_go.Integrity.Commit.{Fresh, handle_block_commit-Good}
use inca_go.Integrity.Loads.{after}
use inca_go.Integrity.Handler.{Holds-after}

-- What the handling of a record meets: the block validator, the id of a segment that it may make,
-- the clock, which times are valid, and whether the state of the peer can be written.
pub record Arrival : Type 0 where
  pub validator : Option BlockValidator
  pub uid : ℕ
  pub now : ℕ
  pub timestamp_valid : ℕ → Bool
  pub state_written : Bool

module _ (e : Env) (r : Reader) where
  -- The calls of the peers of a node, whose handler is its chain.
  abbrev pub chain_calls : Arrival → Calls World
  chain_calls a = record {
    now = a.now;
    timestamp_valid = a.timestamp_valid;
    state_written = a.state_written;
    handle_block_commit = λ blk_ref w. after (handle_block_commit e a.validator a.uid blk_ref w);
  }

  -- The data of the records; `none` is an error of the subscription, which ends the loop.
  unfoldable pub receive_all : List (Arrival × Option ℕ) → Inbox World → Inbox World
  receive_all arrivals = process_pub_sub e r (map (λ a. (chain_calls (a.0), a.1)) arrivals)

  -- The ids that uuid.NewV4 gives are new.
  abbrev pub FreshIds : List (Arrival × Option ℕ) → Inbox World → Type 0
  FreshIds [] inbox = Unit
  FreshIds ((a, none) ∷ rest) inbox = Unit
  FreshIds ((a, some dat) ∷ rest) inbox =
      Fresh a.uid (core inbox.world) × FreshIds rest (receive e r (chain_calls a) dat inbox)

  receive-Sound :
      (a : Arrival) (dat : ℕ) (inbox : Inbox World)
      → Sound e (core inbox.world)
      → Fresh a.uid (core inbox.world)
      → Sound e (core (receive e r (chain_calls a) dat inbox).world)
  receive-Sound a dat inbox sound fresh =
      receive-world e r (λ w. Sound e (core w)) (chain_calls a) dat inbox sound
        (λ blk_ref.
          Holds-after e (λ _. Good e inbox.world) _ (λ _ x h. h.0)
            (handle_block_commit-Good e a.validator a.uid blk_ref inbox.world sound fresh))

  -- Whatever records come from the network, from whatever senders and with whatever they refer to,
  -- and wherever an access of the database fails in their handling: what holds of the segments and
  -- blocks of a node holds of them behind the records. Each new segment gets a new id.
  pub receive_all-Sound :
      (arrivals : List (Arrival × Option ℕ)) (inbox : Inbox World)
      → Sound e (core inbox.world)
      → FreshIds arrivals inbox
      → Sound e (core (receive_all arrivals inbox).world)
  unfolding receive_all process_pub_sub
  receive_all-Sound [] inbox sound fresh = sound
  receive_all-Sound ((a, none) ∷ rest) inbox sound fresh = sound
  receive_all-Sound ((a, some dat) ∷ rest) inbox sound (first, more) =
      receive_all-Sound rest (receive e r (chain_calls a) dat inbox)
        (receive-Sound a dat inbox sound first) more
