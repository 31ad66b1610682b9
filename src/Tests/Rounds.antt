-- ===== src/Tests/Rounds.antt =====
-- The theorems on proposing and voting, at rounds of the small chain.
use inca_go.Base.{
  ℕ, ◌+◌, ◌-◌, ◌≡◌, refl, ◌≤◌, ◌<◌, true, none, some, List, [], ◌∷◌, ◌++◌, arith, All, drop,
}
use inca_go.Wire.{Ref}
use inca_go.Result.{ok}
use inca_go.Go.Channel.{enqueue_all, enqueue_all_lem}
use inca_go.Snapshot.{Snapshot}
use inca_go.Validator.{Outside, skipped, manage_validator}
use inca_go.Validator.Votes.{
  Ordered, IsAfter, round_of, manage_validator-Ordered, manage_validator_stuck,
}
use inca_go.Validator.Restart.{
  Boot, Life, sees, restarts, VotesRise, voted_round, live, live-VotesRise,
}
use inca_go.Proposer.{Context, ConfirmedVote, Turn, collect_votes}
use inca_go.Proposer.Restart.{Event, turn, restart, propose_over, propose_over-Rising}
use inca_go.Proposer.Rounds.{Rising, refs_of, collect_votes-some}
use inca_go.Tests.{env, world, at, snapshot}

abbrev outside : Outside
outside = record {
  follow_vote = λ r. some 12;
  store_vote = λ r. some 30;
  proposer_messages = λ p. ok [];
  send_vote = λ r. ok tt;
  state_written = true;
}

abbrev seen : List (Outside × ℕ × Snapshot)
seen = (outside, 600000000, snapshot 0) ∷ (outside, 3600000000, snapshot 1) ∷ []

manage_validator-Ordered_example :
    Ordered (manage_validator env 7 none seen)
    × All (λ a. IsAfter none (round_of a)) (manage_validator env 7 none seen)
manage_validator-Ordered_example = manage_validator-Ordered env 7 none seen

manage_validator_stuck_example :
    All (λ a. a ≡ skipped) (manage_validator env 7 (some (at 0 1)) seen)
manage_validator_stuck_example = manage_validator_stuck env 7 (at 0 1) seen (omega arith)

abbrev vote_of : ℕ → Ref → ConfirmedVote
vote_of power ref = record { power = power; vote_ref = ref }

-- Two votes of power 5 and 4 do not make a power of 6.
abbrev halves : List ConfirmedVote
halves = vote_of 5 31 ∷ vote_of 4 32 ∷ []

collect_votes-some_example :
    (before : List ConfirmedVote) × (v : ConfirmedVote) × (rest : List ConfirmedVote) × (halves
      ≡ before ++ v ∷ rest)
    × (5 ≤ v.power)
    × All (λ u. u.power < 5) before
    × ((31 ∷ []) ≡ [] ++ (refs_of before ++ v.vote_ref ∷ []))
unfolding collect_votes
collect_votes-some_example = collect_votes-some 5 [] (31 ∷ []) halves refl

abbrev pub context : Context
context = record {
  validator_id = 7;
  own_key = 7;
  genesis_ref = 50;
  block_proposer = some (λ b s. ok (some 90));
  store_header = λ h. some 12;
  store_block = λ b. some 2;
}

abbrev ready : Turn
ready = record {
  now = 600000000;
  state_written = true;
  vote_sent = true;
  required_power = 6;
  votes = vote_of 10 31 ∷ [];
}

abbrev boot : Boot
boot = record { has_key = true; readable = true; writable = true; has_store = true }

abbrev life : List Life
life =
    restarts boot
    ∷ sees outside 600000000 (snapshot 0)
    ∷ restarts boot
    ∷ sees outside 600000000 (snapshot 0)
    ∷ sees outside 3600000000 (snapshot 1)
    ∷ []

live-VotesRise_example :
    VotesRise (live env 7 none none life)
    × All (λ a. IsAfter none (voted_round a)) (live env 7 none none life)
live-VotesRise_example = live-VotesRise env 7 none life

enqueue_all_lem_example :
    enqueue_all {A = ℕ} 1 (1 ∷ []) (2 ∷ 3 ∷ []) ≡ drop (1 + 2 - 1) (1 ∷ 2 ∷ 3 ∷ [])
enqueue_all_lem_example = enqueue_all_lem 1 (1 ∷ []) (2 ∷ 3 ∷ []) (omega arith) (omega arith)

abbrev events : List Event
events =
    restart boot world
    ∷ turn ready (snapshot 0)
    ∷ restart boot world
    ∷ turn ready (snapshot 0)
    ∷ turn ready (snapshot 1)
    ∷ []

propose_over-Rising_example : Rising none (propose_over env context none none events world)
propose_over-Rising_example = propose_over-Rising env context none events world
