-- ===== src/Proposer/Votes.antt =====
-- chain/proposer.go, waitForValidatorVote: which message of a validator is taken for its vote, and
-- what the proposer can collect from a validator set.
use mathlib.Core.List.{Permᴰ}
use mathlib.Core.Logic.{∥∥₁_elim}
use inca_go.Base.{
  ℕ, ◌<◌, ◌≡◌, ◌≢◌, refl, sym, subst, ◌⊎◌, inl, inr, Bool, false, Option, none, some, List, [], ◌∷◌,
  ◌++◌, arith, All, Perm, Bool-cases, Option-cases, if◌then◌else◌,
}
use inca_go.Wire.{Ref, Validator, ValidatorSet, vote, NodeMessage, Env}
use inca_go.Validator.{is_vote}
use inca_go.Proposer.{ConfirmedVote, collect_votes}
use inca_go.Proposer.Rounds.{collect_votes-none_iff}

-- The goroutine of waitForValidatorVote over the messages that come before the round is over.
-- `follow_vote` is the block header that the vote behind a reference is for.
unfoldable pub wait_for_validator_vote :
    (Ref → Option Ref) → Ref → ℕ → List NodeMessage → Option ConfirmedVote
wait_for_validator_vote follow_vote header_ref power [] = none
wait_for_validator_vote follow_vote header_ref power (msg ∷ msgs) =
    let later = wait_for_validator_vote follow_vote header_ref power msgs in
    if is_vote msg.message_type
    then (elim (follow_vote msg.inner_ref) [
      | none ↦ later
      | some voted ↦ some (record { power = power; vote_ref = msg.inner_ref })
    ])
    else later

-- A goroutine sends one vote, or none.
add_vote : Option ConfirmedVote → List ConfirmedVote → List ConfirmedVote
add_vote none confs = confs
add_vote (some conf) confs = conf ∷ confs

-- The votes that the goroutines of one round send: of the operating validators whose key parses and
-- whose peer there is. `messages` are those of the peer with that id.
module _ (e : Env) (follow_vote : Ref → Option Ref) (messages : ℕ → Option (List NodeMessage))
    (header_ref : Ref) where
  vote_of : Validator → Option ConfirmedVote
  unfolding wait_for_validator_vote
  vote_of v = elim (e.parse_peer_id v) [
    | none ↦ none
    | some id ↦ elim (messages id) [
      | none ↦ none
      | some msgs ↦ wait_for_validator_vote follow_vote header_ref v.voting_power msgs
    ]
  ]

  unfoldable pub sent_votes : ValidatorSet → List ConfirmedVote
  unfolding vote_of add_vote
  sent_votes [] = []
  sent_votes (v ∷ vs) =
      let rest = sent_votes vs in if v.operating then add_vote (vote_of v) rest else rest

-- No validator of the set has the power by itself.
abbrev pub AllBelow : ℕ → ValidatorSet → Type 0
AllBelow required = All (λ (v : Validator). v.voting_power < required)

wait-power :
    (follow_vote : Ref → Option Ref) (header_ref : Ref) (power : ℕ) (msgs : List NodeMessage)
    (conf : ConfirmedVote)
    → wait_for_validator_vote follow_vote header_ref power msgs ≡ some conf
    → conf.power ≡ power
unfolding wait_for_validator_vote
wait-power follow_vote header_ref power [] conf h = ground arith
wait-power follow_vote header_ref power (msg ∷ msgs) conf h =
    ground (arith, wait-power follow_vote header_ref power msgs conf)

add_vote-All :
    (P : ConfirmedVote → Type 0) (sent : Option ConfirmedVote) (confs : List ConfirmedVote)
    → ((conf : ConfirmedVote) → sent ≡ some conf → P conf)
    → All P confs
    → All P (add_vote sent confs)
unfolding add_vote
add_vote-All P none confs one rest = rest
add_vote-All P (some conf) confs one rest = (one conf refl, rest)

abbrev LowIf : ℕ → Bool → Option ConfirmedVote → List ConfirmedVote → Type 0
LowIf required b sent rest =
    All (λ (conf : ConfirmedVote). conf.power < required) (if b then add_vote sent rest else rest)

All-Permᴰ {ℓ κ} : {A : Type ℓ} (P : A → Type κ) {xs ys : List A} → Permᴰ xs ys → All P xs → All P ys
All-Permᴰ P (Permᴰ.swap p q) all = (subst P q all.1.0, (subst P p all.0, all.1.1))
All-Permᴰ P (Permᴰ.trans p q) all = All-Permᴰ P q (All-Permᴰ P p all)
All-Permᴰ P (Permᴰ.cons q p) all = (subst P q all.0, All-Permᴰ P p all.1)
All-Permᴰ P Permᴰ.nil all = tt

module _ (e : Env) (follow_vote : Ref → Option Ref) (messages : ℕ → Option (List NodeMessage))
    (header_ref : Ref) where
  vote_of-power :
      (v : Validator) (conf : ConfirmedVote)
      → vote_of e follow_vote messages header_ref v ≡ some conf
      → conf.power ≡ v.voting_power
  unfolding vote_of
  vote_of-power v conf h = elim (Option-cases (e.parse_peer_id v)) [
    | inl no_key ↦ ground (arith, no_key)
    | inr (id, key) ↦ elim (Option-cases (messages id)) [
      | inl no_peer ↦ ground (arith, key, no_peer)
      | inr (msgs, peer) ↦
          wait-power follow_vote header_ref v.voting_power msgs conf (ground (arith, key, peer))
    ]
  ]

  sent_votes-low :
      (required : ℕ) (vals : ValidatorSet)
      → AllBelow required vals
      → All
          (λ (conf : ConfirmedVote). conf.power < required)
          (sent_votes e follow_vote messages header_ref vals)
  unfolding sent_votes
  sent_votes-low required [] low = tt
  sent_votes-low required (v ∷ vs) low =
      let rest = sent_votes-low required vs low.1 in
      let more =
        add_vote-All (λ (conf : ConfirmedVote). conf.power < required)
          (vote_of e follow_vote messages header_ref v)
          (sent_votes e follow_vote messages header_ref vs)
          (λ conf sent. omega (arith, vote_of-power v conf sent, low.0)) rest in
      elim (Bool-cases v.operating) [
        | inr off ↦
            subst
              (λ b.
                LowIf required b (vote_of e follow_vote messages header_ref v)
                  (sent_votes e follow_vote messages header_ref vs))
              (sym off) rest
        | inl on ↦
            subst
              (λ b.
                LowIf required b (vote_of e follow_vote messages header_ref v)
                  (sent_votes e follow_vote messages header_ref vs))
              (sym on) more
      ]

  -- A set in which no validator has the required power by itself never commits a block: whatever
  -- messages the validators send, and in whatever order their votes arrive, the proposer goes on
  -- waiting until the round is over.
  pub none_alone_never_commits :
      (required : ℕ) (vals : ValidatorSet) (arrived : List ConfirmedVote)
      → AllBelow required vals
      → Perm (sent_votes e follow_vote messages header_ref vals) arrived
      → collect_votes required [] arrived ≡ none
  none_alone_never_commits required vals arrived low order = ∥∥₁_elim order (hlevel) (λ p.
      (collect_votes-none_iff required [] arrived).1 (
        All-Permᴰ (λ (conf : ConfirmedVote). conf.power < required) p
          (sent_votes-low required vals low)))

-- A vote for any block is taken for a vote for the proposed one: after messages that are no votes,
-- or whose reference cannot be followed, the first vote counts, whatever header it is for.
foreign_vote_counts :
    (follow_vote : Ref → Option Ref) (header_ref voted : Ref) (power : ℕ)
    (before rest : List NodeMessage) (msg : NodeMessage)
    → All
        (λ (m : NodeMessage). (is_vote m.message_type ≡ false) ⊎ (follow_vote m.inner_ref ≡ none))
        before
    → msg.message_type ≡ vote
    → follow_vote msg.inner_ref ≡ some voted
    → voted ≢ header_ref
    → wait_for_validator_vote follow_vote header_ref power (before ++ msg ∷ rest)
      ≡ some (record { power = power; vote_ref = msg.inner_ref })
unfolding wait_for_validator_vote
foreign_vote_counts follow_vote header_ref voted power [] rest msg skipped is there foreign =
    ground arith
foreign_vote_counts follow_vote header_ref voted power (m ∷ before) rest msg skipped is there
      foreign =
    ground (
      arith,
      skipped.0,
      foreign_vote_counts follow_vote header_ref voted power before rest msg skipped.1 is there
          foreign,
    )
