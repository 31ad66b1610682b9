-- ===== src/Proposer/Rounds.antt =====
-- Which rounds a proposer proposes in, and when it commits.
use mathlib.Core.List.{append_assoc}
use inca_go.Base.{
  ℕ, ◌+◌, ◌≤◌, ◌<◌, ◌≡◌, refl, subst, ◌⊎◌, inl, inr, ◌↔◌, true, Option, none, some, List, [], ◌∷◌,
  ◌++◌, arith, All, map, ap, ◌∙◌, Bool-cases, Option-cases, leb,
}
use inca_go.Wire.{Ref, RoundInfo, Validator, Env}
use inca_go.Snapshot.{Snapshot}
use inca_go.World.{World}
use inca_go.Proposer.{
  Context, ConfirmedVote, collect_votes, may_propose, Turn, Step, skipped, propose_round,
  manage_proposer, log_step, vote_failed,
}

-- The order of rounds: by height, and by round within a height.
abbrev pub Later : RoundInfo → RoundInfo → Type 0
Later l r = (l.height < r.height) ⊎ ((l.height ≡ r.height) × (l.round < r.round))

abbrev pub IsLater : Option RoundInfo → RoundInfo → Type 0
IsLater none r = Unit
IsLater (some l) r = Later l r

-- It is the proposer's turn.
pub record OnTurn (own_key : ℕ) (snap : Snapshot) : Type 0 where
  pub started : snap.round_started ≡ true
  pub proposer : Validator
  pub elected : snap.current_proposer ≡ some proposer
  pub own : proposer.pub_key ≡ own_key

-- A proposer acts on a snapshot exactly when the round has started, it is the one elected, and the
-- round is later than the last that it proposed in.
pub may_propose_iff :
    (own_key : ℕ) (last : Option RoundInfo) (snap : Snapshot)
    → (may_propose own_key last snap ≡ true)
      ↔ (OnTurn own_key snap × IsLater last snap.block_round_info)
unfolding may_propose
may_propose_iff own_key last snap = elim (Option-cases snap.current_proposer) [
  | inl nobody ↦ (λ h. absurd (ground arith), λ (t, r). absurd (ground (arith, t.elected)))
  | inr (p, found) ↦ (
    λ h. (
      record { started = ground arith; proposer = p; elected = found; own = ground arith },
      later last (ground arith),
    ),
    λ (t, r). allowed last t r,
  )
]
  where
    later :
        (last' : Option RoundInfo)
        → may_propose own_key last' snap ≡ true
        → IsLater last' snap.block_round_info
    later none h = tt
    later (some l) h = ground arith

    allowed :
        (last' : Option RoundInfo)
        → OnTurn own_key snap
        → IsLater last' snap.block_round_info
        → may_propose own_key last' snap ≡ true
    allowed none t r = ground (arith, t.started, t.elected, t.own)
    allowed (some l) t r = ground (arith, t.started, t.elected, t.own, r)

-- The loop ends exactly when one of the votes that come has by itself the power that is required:
-- votes of less power never add up, however many come.
pub collect_votes-none_iff :
    (required : ℕ) (confirmed : List Ref) (votes : List ConfirmedVote)
    → (collect_votes required confirmed votes ≡ none) ↔ All (λ v. v.power < required) votes
unfolding collect_votes
collect_votes-none_iff required confirmed [] = (λ e. tt, λ a. refl)
collect_votes-none_iff required confirmed (v ∷ votes) =
    let ih = collect_votes-none_iff required (confirmed ++ v.vote_ref ∷ []) votes in
    elim (Bool-cases (leb required (0 + v.power))) [
      | inl enough ↦ rw enough (λ e. cc, λ (low, _). absurd (ground arith))
      | inr short ↦ rw short (λ e. (ground arith, ih.0 e), λ (_, low). ih.1 low)
    ]

-- The references of the votes, as they come.
abbrev pub refs_of : List ConfirmedVote → List Ref
refs_of = map (λ v. v.vote_ref)

-- Where the loop ends with votes, these are the ones that came up to the first that has the required
-- power, in the order in which they came.
pub collect_votes-some :
    (required : ℕ) (confirmed out : List Ref) (votes : List ConfirmedVote)
    → collect_votes required confirmed votes ≡ some out
    → (before : List ConfirmedVote) × (v : ConfirmedVote) × (rest : List ConfirmedVote) × (votes
        ≡ before ++ v ∷ rest)
      × (required ≤ v.power)
      × All (λ u. u.power < required) before
      × (out ≡ confirmed ++ (refs_of before ++ v.vote_ref ∷ []))
unfolding collect_votes
collect_votes-some required confirmed out [] h = cc
collect_votes-some required confirmed out (v ∷ votes) h =
    elim (Bool-cases (leb required (0 + v.power))) [
      | inl enough ↦ ([], v, votes, refl, ground arith, tt, ground arith)
      | inr short ↦
          let (before, u, rest, split, high, low, shown) =
            collect_votes-some required (confirmed ++ v.vote_ref ∷ []) out votes (rw short at h) in
          (
            v ∷ before,
            u,
            rest,
            ap (◌∷◌ v) split,
            high,
            (ground arith, low),
            shown ∙ append_assoc confirmed (v.vote_ref ∷ []) _,
          )
    ]

-- A turn skips, or acts in a later round and records it.
pub turn_cases :
    (e : Env) (c : Context) (last : Option RoundInfo) (t : Turn) (snap : Snapshot) (w : World)
    → let (last', step, w') = propose_round e c last t snap w in
      ((last' ≡ last) × (step ≡ skipped))
      ⊎ ((last' ≡ some snap.block_round_info) × IsLater last snap.block_round_info)
unfolding propose_round
turn_cases e c last t snap w = elim (Bool-cases (may_propose c.own_key last snap)) [
  | inr skips ↦ rw skips (inl (refl, refl))
  | inl acts ↦ elim (Bool-cases t.state_written) [
    | inl written ↦
        rw (acts, written) (inr (refl, ((may_propose_iff c.own_key last snap).0 acts).1))
    | inr lost ↦ rw (acts, lost) (inr (refl, ((may_propose_iff c.own_key last snap).0 acts).1))
  ]
]

pub IsLater-trans :
    (last : Option RoundInfo) (r x : RoundInfo) → IsLater last r → Later r x → IsLater last x
IsLater-trans none r x h k = tt
IsLater-trans (some l) r x h k = ground arith

-- Each round of a run is later than those before it.
abbrev pub Rising : Option RoundInfo → List (RoundInfo × Step) → Type 0
Rising last [] = Unit
Rising last (x ∷ xs) = IsLater last x.0 × Rising (some x.0) xs

Rising-weaken :
    (last : Option RoundInfo) (r : RoundInfo)
    → IsLater last r
    → (xs : List (RoundInfo × Step)) → Rising (some r) xs
    → Rising last xs
Rising-weaken last r h [] k = tt
Rising-weaken last r h (x ∷ xs) k = (IsLater-trans last r x.0 h k.0, k.1)

log_step-Rising :
    (last last' : Option RoundInfo) (step : Step) (round : RoundInfo)
    (later : List (RoundInfo × Step))
    → ((last' ≡ last) × (step ≡ skipped)) ⊎ ((last' ≡ some round) × IsLater last round)
    → Rising last' later
    → Rising last (log_step step round later)
unfolding log_step
log_step-Rising last last' skipped round later (inl (same, _)) rising =
    subst (λ x. Rising x later) same rising
log_step-Rising last last' skipped round later (inr (new, after)) rising =
    Rising-weaken last round after later (subst (λ x. Rising x later) new rising)
log_step-Rising last last' vote_failed round later (inl (_, skip)) rising = cc
log_step-Rising last last' vote_failed round later (inr (new, after)) rising = (after, tt)
log_step-Rising last last' step round later (inl (_, skip)) rising = cc
log_step-Rising last last' step round later (inr (new, after)) rising =
    (after, subst (λ x. Rising x later) new rising)

-- A proposer never proposes twice for a height and round: the rounds in which it acts, in any run,
-- rise strictly by height and round, from the last proposal that it had stored.
manage_proposer-Rising :
    (e : Env) (c : Context) (last : Option RoundInfo) (turns : List (Turn × Snapshot)) (w : World)
    → Rising last (manage_proposer e c last turns w)
unfolding manage_proposer
manage_proposer-Rising e c last [] w = tt
manage_proposer-Rising e c last ((t, snap) ∷ rest) w =
    let (last', step, w') = propose_round e c last t snap w in
    log_step-Rising last last' step snap.block_round_info _ (turn_cases e c last t snap w)
      (manage_proposer-Rising e c last' rest w')
