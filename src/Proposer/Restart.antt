-- ===== src/Proposer/Restart.antt =====
-- chain/proposer.go, NewProposer with its state in the database: a proposer over the restarts of its
-- node.
use inca_go.Base.{◌≡◌, subst, sym, ◌⊎◌, inl, inr, Option, none, some, List, [], ◌∷◌, arith}
use inca_go.Wire.{RoundInfo, Env}
use inca_go.Result.{Result, ok, ◌>>◌, guard, bad_key, db_error, no_object_store}
use inca_go.Snapshot.{Snapshot}
use inca_go.World.{World}
use inca_go.Validator.Restart.{Boot, started}
use inca_go.Proposer.{Context, Turn, Step, skipped, unwritten, vote_failed, propose_round}
use inca_go.Proposer.Rounds.{IsLater, IsLater-trans, Rising, turn_cases}

-- The last proposal that the new proposer starts with. It writes back the state that it has read.
unfoldable pub new_proposer : Boot → Option RoundInfo → Result (Option RoundInfo)
new_proposer b stored = do
  guard b.has_key bad_key
  guard b.readable db_error
  guard b.writable db_error
  guard b.has_store no_object_store
  ok stored

-- What comes to a node: a snapshot for its proposer, or the end of the process and the next start,
-- which finds the world as it then is.
pub data Event : Type 0 where
  turn : Turn → Snapshot → Event
  restart : Boot → World → Event

-- The last proposal in the database after a round, and the proposer's own, where it still runs: the
-- loop returns where its vote cannot be sent.
unfoldable pub proposal_after : Step → RoundInfo → Option RoundInfo → Option RoundInfo
proposal_after skipped round stored = stored
proposal_after unwritten round stored = stored
proposal_after _ round stored = some round

abbrev running_after : Step → Option RoundInfo → Option (Option RoundInfo)
running_after vote_failed last = none
running_after _ last = some last

-- The rounds that get as far as a proposal.
abbrev add_round : Step → RoundInfo → List (RoundInfo × Step) → List (RoundInfo × Step)
add_round skipped round later = later
add_round unwritten round later = later
add_round step round later = (round, step) ∷ later

-- The rounds that a node makes proposals in, with the proposer that runs, if one does, and the
-- stored last proposal.
unfoldable pub propose_over :
    Env
    → Context
    → Option (Option RoundInfo)
    → Option RoundInfo
    → List Event
    → World
    → List (RoundInfo × Step)
unfolding new_proposer proposal_after
propose_over e c running stored [] w = []
propose_over e c running stored (restart b w' ∷ rest) w =
    propose_over e c (started (new_proposer b stored)) stored rest w'
propose_over e c none stored (turn t snap ∷ rest) w = propose_over e c none stored rest w
propose_over e c (some last) stored (turn t snap ∷ rest) w =
    let (last', step, w') = propose_round e c last t snap w in
    let round = snap.block_round_info in
    add_round step round
      (propose_over e c (running_after step last') (proposal_after step round stored) rest w')

-- What is later than the running proposer's last round is later than the stored one.
abbrev Covers : Option RoundInfo → Option (Option RoundInfo) → Type 0
Covers stored none = Unit
Covers stored (some last) = (x : RoundInfo) → IsLater last x → IsLater stored x

new_proposer_cases :
    (b : Boot) (stored : Option RoundInfo)
    → (new_proposer b stored ≡ ok stored) ⊎ (started (new_proposer b stored) ≡ none)
unfolding new_proposer
new_proposer_cases b stored = ground arith

Covers-started :
    (b : Boot) (stored : Option RoundInfo) → Covers stored (started (new_proposer b stored))
Covers-started b stored = elim (new_proposer_cases b stored) [
  | inl made ↦ subst (λ r. Covers stored (started r)) (sym made) (λ x h. h)
  | inr failed ↦ subst (Covers stored) (sym failed) tt
]

module _ (rest : Option (Option RoundInfo) → Option RoundInfo → List (RoundInfo × Step))
    (rises : (running : Option (Option RoundInfo)) (stored : Option RoundInfo)
      → Covers stored running
      → Rising stored (rest running stored)) where
  add_round-Rising :
      (step : Step) (last last' stored : Option RoundInfo) (r : RoundInfo)
      → Covers stored (some last)
      → ((last' ≡ last) × (step ≡ skipped)) ⊎ ((last' ≡ some r) × IsLater last r)
      → Rising stored
          (add_round step r (rest (running_after step last') (proposal_after step r stored)))
  unfolding proposal_after
  add_round-Rising skipped last last' stored r covers (inl (same, _)) =
      rises (some last') stored (subst (λ l. Covers stored (some l)) (sym same) covers)
  add_round-Rising skipped last last' stored r covers (inr (new, after)) =
      rises (some last') stored (
        subst (λ l. Covers stored (some l)) (sym new)
          (λ x h. covers x (IsLater-trans last r x after h)))
  add_round-Rising unwritten last last' stored r covers (inr (new, after)) =
      rises (some last') stored (
        subst (λ l. Covers stored (some l)) (sym new)
          (λ x h. covers x (IsLater-trans last r x after h)))
  add_round-Rising vote_failed last last' stored r covers (inr (new, after)) =
      (covers r after, rises none (some r) tt)
  add_round-Rising step last last' stored r covers (inl (_, skip)) = cc
  add_round-Rising step last last' stored r covers (inr (new, after)) = (
    covers r after,
    rises (some last') (some r) (subst (λ l. Covers (some r) (some l)) (sym new) (λ x h. h)),
  )

module _ (e : Env) (c : Context) where
  propose_over-later :
      (running : Option (Option RoundInfo)) (stored : Option RoundInfo) (events : List Event)
      (w : World)
      → Covers stored running
      → Rising stored (propose_over e c running stored events w)
  unfolding propose_over
  propose_over-later running stored [] w covers = tt
  propose_over-later running stored (restart b w' ∷ rest) w covers =
      propose_over-later (started (new_proposer b stored)) stored rest w' (Covers-started b stored)
  propose_over-later none stored (turn t snap ∷ rest) w covers =
      propose_over-later none stored rest w tt
  propose_over-later (some last) stored (turn t snap ∷ rest) w covers =
      let (last', step, w') = propose_round e c last t snap w in
      add_round-Rising (λ running kept. propose_over e c running kept rest w')
        (λ running kept under. propose_over-later running kept rest w' under) step last last' stored
        snap.block_round_info covers (turn_cases e c last t snap w)

  -- A proposer never makes proposals twice for a height and round, however often its node ends and
  -- starts again in between: the rounds that it makes proposals in rise strictly by height and
  -- round, from the stored last proposal. That holds also where the state cannot be written in some
  -- of the rounds, or a start fails.
  pub propose_over-Rising :
      (stored : Option RoundInfo) (events : List Event) (w : World)
      → Rising stored (propose_over e c none stored events w)
  propose_over-Rising stored events w = propose_over-later none stored events w tt
