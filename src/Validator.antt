-- ===== src/Validator.antt =====
-- chain/validator.go: a validator votes for the proposals of the current proposer.
pub mod Votes
pub mod Restart
use inca_go.Base.{
  ℕ, Bool, true, false, not, ◌&&◌, ◌||◌, Option, none, some, List, [], ◌∷◌, ltb, leb, ◌==◌,
  if◌then◌else◌,
}
use inca_go.Wire.{
  Ref, RoundInfo, BlockHeader, Validator, ValidatorSet, MessageType, unknown, vote, block_commit,
  app, NodeMessage, Env,
}
use inca_go.Result.{Result, ok, err, ◌>>=◌, or_fail, guard, unresolved, not_stored}
use inca_go.Snapshot.{Snapshot}

abbrev pub is_vote : MessageType → Bool
is_vote vote = true
is_vote _ = false

-- What the validator meets outside: the references of votes, which it follows and stores, the
-- messages that reach it from a proposer before the round is over, and the node that sends.
pub record Outside : Type 0 where
  pub follow_vote : Ref → Option Ref
  pub store_vote : Ref → Option Ref
  pub proposer_messages : Validator → Result (List NodeMessage)
  pub send_vote : Ref → Result (Unit {0})
  -- writeState
  pub state_written : Bool

abbrev is_for_round : Snapshot → BlockHeader → Bool
is_for_round snap header =
    header.round_info.height == snap.block_round_info.height
    && header.round_info.round == snap.block_round_info.round

module _ (e : Env) (o : Outside) where
  -- The loop of makeVote: the header of the first vote that fits the round, or `none` where the
  -- round is over before.
  unfoldable pub find_proposal : Snapshot → List NodeMessage → Result (Option Ref)
  find_proposal snap [] = ok none
  find_proposal snap (m ∷ ms) =
      let rest = find_proposal snap ms in
      if not (is_vote m.message_type) then rest else (do
        header_ref ← or_fail (o.follow_vote m.inner_ref) unresolved
        header ← or_fail (e.follow_header header_ref) unresolved
        if is_for_round snap header && e.ref_equals header.last_block_ref snap.last_block_ref
            then ok (some header_ref)
            else rest)

  cast_vote : Option Ref → Result (Option Ref)
  cast_vote none = ok none
  cast_vote (some header_ref) = do
    vote_ref ← or_fail (o.store_vote header_ref) not_stored
    sent ← o.send_vote vote_ref
    ok (some vote_ref)

  unfoldable pub make_vote : Validator → Snapshot → Result (Option Ref)
  unfolding find_proposal cast_vote
  make_vote proposer snap = do
    messages ← o.proposer_messages proposer
    header_ref ← find_proposal snap messages
    cast_vote header_ref

  unfoldable pub is_member : ℕ → ValidatorSet → Bool
  is_member key [] = false
  is_member key (v ∷ vs) = v.pub_key == key || is_member key vs

-- The checks of processStateSnapshot before it records the vote.
unfoldable pub may_vote : Option RoundInfo → ℕ → Snapshot → Bool
may_vote last now snap = not (ltb now snap.round_start_time) && (elim last [
  | none ↦ true
  | some l ↦
      not (ltb snap.block_round_info.height l.height)
      && not (leb snap.block_round_info.round l.round)
])

-- What a call of processStateSnapshot did: it skipped the round, recorded it without a vote, or
-- called makeVote.
pub data Action : Type 0 where
  skipped : Action
  recorded : RoundInfo → Action
  voted : RoundInfo → Result (Option Ref) → Action

module _ (e : Env) (o : Outside) (own_key : ℕ) where
  vote_for : Validator → Snapshot → Action
  unfolding make_vote is_member
  vote_for proposer snap =
      let round = snap.block_round_info in
      if not o.state_written
      then recorded round
      else if proposer.pub_key == own_key
      then recorded round
      else if is_member e o own_key snap.validator_set
      then voted round (make_vote e o proposer snap)
      else recorded round

  -- The last vote of the state, and what was done. The public key of the proposer parses, or else
  -- it equals no key.
  unfoldable pub process_state_snapshot :
      Option RoundInfo → ℕ → Snapshot → Option RoundInfo × Action
  unfolding may_vote vote_for
  process_state_snapshot last now snap = elim snap.current_proposer [
    | none ↦ (last, skipped)
    | some proposer ↦
        if may_vote last now snap
        then (some snap.block_round_info, vote_for proposer snap)
        else (last, skipped)
  ]

-- ManageValidator: the snapshots in the order in which they come, each with the clock and what is
-- met outside at the time.
unfoldable pub manage_validator :
    Env → ℕ → Option RoundInfo → List (Outside × ℕ × Snapshot) → List Action
manage_validator e own_key last [] = []
manage_validator e own_key last ((o, now, snap) ∷ rest) =
    let (last', action) = process_state_snapshot e o own_key last now snap in
    action ∷ manage_validator e own_key last' rest
