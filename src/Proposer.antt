-- ===== src/Proposer.antt =====
-- chain/proposer.go: the validator whose turn it is proposes a block, waits for the votes and
-- commits the block.
pub mod Rounds
pub mod Honest
pub mod Votes
pub mod Restart
use inca_go.Base.{
  ℕ, suc, ◌+◌, Bool, true, false, not, ◌&&◌, ◌||◌, Option, none, some, List, [], ◌∷◌, ◌++◌, ltb,
  leb, ◌==◌, if◌then◌else◌,
}
use inca_go.Wire.{Ref, RoundInfo, InnerBlock, BlockHeader, Validator, ValidatorSet, Env}
use inca_go.Result.{Result, ok, err, or_fail, not_stored}
use inca_go.Block.{Block}
use inca_go.Snapshot.{Snapshot}
use inca_go.World.{World, M, Run, done, failed, ◌>>=◌, ◌>>◌, pure, lift, get_block}

-- The interface block.Proposer; `none` abstains.
abbrev pub BlockProposer : Type 0
BlockProposer = Block → Snapshot → Result (Option Ref)

-- What a proposer has: its id, its chain's genesis and block proposer; and the object store.
pub record Context : Type 0 where
  pub validator_id : ℕ
  pub own_key : ℕ
  pub genesis_ref : Ref
  pub block_proposer : Option BlockProposer
  pub store_header : BlockHeader → Option Ref
  pub store_block : InnerBlock → Option Ref

-- The header that makeProposal builds, at the time `now`.
unfoldable pub proposed_header : Context → ℕ → Snapshot → Ref → BlockHeader
proposed_header c now snap state_ref = record {
  genesis_ref = c.genesis_ref;
  chain_config_ref = snap.last_block_header.chain_config_ref;
  next_chain_config_ref = snap.last_block_header.chain_config_ref;
  last_block_ref = snap.last_block_ref;
  round_info = snap.block_round_info;
  block_ts = now;
  proposer_id = c.validator_id;
  state_ref = state_ref;
}

module _ (e : Env) (c : Context) where
  store_proposal : ℕ → Snapshot → Option Ref → M (Option (Ref × BlockHeader))
  unfolding proposed_header
  store_proposal now snap none = pure none
  store_proposal now snap (some state_ref) = do
    header_ref ← lift (or_fail (c.store_header (proposed_header c now snap state_ref)) not_stored)
    pure (some (header_ref, proposed_header c now snap state_ref))

  unfoldable pub make_proposal : ℕ → Snapshot → M (Option (Ref × BlockHeader))
  unfolding store_proposal
  make_proposal now snap w = elim c.block_proposer [
    | none ↦ done none w
    | some propose ↦
        (do
          last_block ← get_block e snap.last_block_ref
          state_ref ← lift (propose last_block snap)
          store_proposal now snap state_ref)
          w
  ]

-- confirmedVote: a vote with the power of the validator that cast it.
pub record ConfirmedVote : Type 0 where
  pub power : ℕ
  pub vote_ref : Ref

-- The loop that waits for votes, over those that come before the round is over. The standing is a
-- variable of the loop's body: it is 0 again in each round.
unfoldable pub collect_votes : ℕ → List Ref → List ConfirmedVote → Option (List Ref)
collect_votes required confirmed [] = none
collect_votes required confirmed (v ∷ vs) =
    let standing = 0 + v.power in
    let confirmed' = confirmed ++ v.vote_ref ∷ [] in
    let rest = collect_votes required confirmed' vs in
    if leb required standing then some confirmed' else rest

-- The validators that ManageProposer waits for.
unfoldable pub awaited : ValidatorSet → ValidatorSet
awaited [] = []
awaited (v ∷ vs) = if v.operating then v ∷ awaited vs else awaited vs

-- The checks of ManageProposer before it records the proposal.
unfoldable pub may_propose : ℕ → Option RoundInfo → Snapshot → Bool
may_propose own_key last snap =
    snap.round_started
    && (elim snap.current_proposer [ none ↦ false | some p ↦ p.pub_key == own_key ])
    && (elim last [
      | none ↦ true
      | some l ↦
          not (ltb snap.block_round_info.height l.height)
          && not
              (l.height == snap.block_round_info.height && leb snap.block_round_info.round l.round)
    ])

-- How one round of ManageProposer ends.
pub data Step : Type 0 where
  skipped unwritten abstained : Step
  vote_failed : Step
  cancelled : RoundInfo → Step
  unstored : RoundInfo → Step
  committed : RoundInfo → Ref → Step

-- What comes from outside in one round: whether the state is written and the own vote is sent, the
-- voting power that a block needs, and the votes that come before the round is over.
pub record Turn : Type 0 where
  pub now : ℕ
  pub state_written : Bool
  pub vote_sent : Bool
  pub required_power : ℕ
  pub votes : List ConfirmedVote

-- A turn that is not skipped is logged; the loop returns where its own vote cannot be sent.
log_step : Step → RoundInfo → List (RoundInfo × Step) → List (RoundInfo × Step)
log_step skipped round later = later
log_step vote_failed round later = (round, vote_failed) ∷ []
log_step other round later = (round, other) ∷ later

module _ (e : Env) (c : Context) where
  commit_votes : RoundInfo → Ref → Option (List Ref) → Step
  commit_votes round header_ref none = cancelled round
  commit_votes round header_ref (some votes) =
      elim (c.store_block (record { block_header_ref = header_ref; vote_refs = votes })) [
        | none ↦ unstored round
        | some blk_ref ↦ committed round blk_ref
      ]

  -- The proposal is nil where it failed, or where the proposer abstains.
  finish_round : Turn → Snapshot → Run (Option (Ref × BlockHeader)) → Step × World
  unfolding commit_votes collect_votes
  finish_round t snap (failed _ w) = (abstained, w)
  finish_round t snap (done none w) = (abstained, w)
  finish_round t snap (done (some (header_ref, _)) w) =
      let committing =
        commit_votes snap.block_round_info header_ref (collect_votes t.required_power [] t.votes) in
      (if t.vote_sent then committing else vote_failed, w)

  -- One turn of the loop of ManageProposer: the last proposal of the state, how the turn ended, and
  -- the world after it.
  unfoldable pub propose_round :
      Option RoundInfo → Turn → Snapshot → World → Option RoundInfo × Step × World
  unfolding may_propose make_proposal finish_round
  propose_round last t snap w =
      let (step, w') = finish_round t snap (make_proposal e c t.now snap w) in
      if not (may_propose c.own_key last snap)
      then (last, skipped, w)
      else if not t.state_written
      then (some snap.block_round_info, unwritten, w)
      else (some snap.block_round_info, step, w')

  -- The loop of ManageProposer over the snapshots that come: the rounds that it acted on, and how.
  unfoldable pub manage_proposer :
      Option RoundInfo → List (Turn × Snapshot) → World → List (RoundInfo × Step)
  unfolding log_step
  manage_proposer last [] w = []
  manage_proposer last ((t, snap) ∷ rest) w =
      let (last', step, w') = propose_round last t snap w in
      log_step step snap.block_round_info (manage_proposer last' rest w')
