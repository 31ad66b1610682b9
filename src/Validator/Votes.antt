-- ===== src/Validator/Votes.antt =====
-- Which rounds a validator votes in.
use inca_go.Base.{
  ℕ, ◌≤◌, ◌<◌, ◌≡◌, refl, subst, ◌⊎◌, inl, inr, Option, none, some, List, [], ◌∷◌, arith, All,
  Bool-cases, Option-cases,
}
use inca_go.Wire.{RoundInfo, Validator, Env}
use inca_go.Snapshot.{Snapshot}
use inca_go.Validator.{
  Outside, Action, skipped, recorded, voted, may_vote, vote_for, process_state_snapshot,
  manage_validator,
}

-- The round that an action commits the validator to.
abbrev pub round_of : Action → Option RoundInfo
round_of skipped = none
round_of (recorded r) = some r
round_of (voted r _) = some r

-- `r` comes after `l`: in a later round, and at no earlier height.
abbrev pub After : RoundInfo → Option RoundInfo → Type 0
After l none = Unit
After l (some r) = (l.height ≤ r.height) × (l.round < r.round)

abbrev pub IsAfter : Option RoundInfo → Option RoundInfo → Type 0
IsAfter none r = Unit
IsAfter (some l) r = After l r

-- Each action comes after all those before it.
abbrev pub Ordered : List Action → Type 0
Ordered [] = Unit
Ordered (a ∷ rest) = All (λ b. IsAfter (round_of a) (round_of b)) rest × Ordered rest

After-trans :
    {l r : RoundInfo} (x : Option RoundInfo)
    → After l (some r)
    → IsAfter (some r) x
    → IsAfter (some l) x
After-trans none h k = tt
After-trans (some x) h k = (omega arith, omega arith)

pub IsAfter-none : (last : Option RoundInfo) → IsAfter last none
IsAfter-none none = tt
IsAfter-none (some l) = tt

pub IsAfter-trans :
    (last : Option RoundInfo) (r : RoundInfo) (x : Option RoundInfo)
    → IsAfter last (some r)
    → IsAfter (some r) x
    → IsAfter last x
IsAfter-trans none r x h k = tt
IsAfter-trans (some l) r x h k = After-trans x h k

All-weaken :
    (last : Option RoundInfo) (r : RoundInfo)
    → IsAfter last (some r)
    → (xs : List Action) → All (λ a. IsAfter (some r) (round_of a)) xs
    → All (λ a. IsAfter last (round_of a)) xs
All-weaken last r h [] k = tt
All-weaken last r h (a ∷ xs) k =
    (IsAfter-trans last r (round_of a) h k.0, All-weaken last r h xs k.1)

pub All-none : (xs : List Action) → All (λ a. IsAfter none (round_of a)) xs
All-none [] = tt
All-none (a ∷ xs) = (tt, All-none xs)

module _ (e : Env) (own_key : ℕ) where
  vote_for-round :
      (o : Outside) (p : Validator) (snap : Snapshot)
      → round_of (vote_for e o own_key p snap) ≡ some snap.block_round_info
  unfolding vote_for
  vote_for-round o p snap = ground arith

  -- One call either skips the round, or commits to it after the last one.
  pub step_cases :
      (o : Outside) (last : Option RoundInfo) (now : ℕ) (snap : Snapshot)
      → let (last', action) = process_state_snapshot e o own_key last now snap in
        ((last' ≡ last) × (action ≡ skipped))
        ⊎ ((last' ≡ some snap.block_round_info)
            × (round_of action ≡ some snap.block_round_info)
            × IsAfter last (some snap.block_round_info))
  unfolding process_state_snapshot
  step_cases o none now snap = elim (Option-cases snap.current_proposer) [
    | inl nobody ↦ inl (ground arith, ground arith)
    | inr (p, found) ↦ elim (Bool-cases (may_vote none now snap)) [
      | inl may ↦
          inr (ground arith, rw (found, process_state_snapshot, may) (vote_for-round o p snap), tt)
      | inr not_now ↦ inl (ground arith, ground arith)
    ]
  ]
  step_cases o (some l) now snap = elim (Option-cases snap.current_proposer) [
    | inl nobody ↦ inl (ground arith, ground arith)
    | inr (p, found) ↦ elim (Bool-cases (may_vote (some l) now snap)) [
      | inl may ↦ inr (
        ground arith,
        rw (found, process_state_snapshot, may) (vote_for-round o p snap),
        (ground arith, ground arith),
      )
      | inr not_now ↦ inl (ground arith, ground arith)
    ]
  ]

  All-IsAfter :
      (last : Option RoundInfo) (events : List (Outside × ℕ × Snapshot))
      → All (λ a. IsAfter last (round_of a)) (manage_validator e own_key last events)
  unfolding manage_validator
  All-IsAfter last [] = tt
  All-IsAfter last ((o, now, snap) ∷ rest) =
      let (last', action) = process_state_snapshot e o own_key last now snap in
      let acts = manage_validator e own_key last' rest in
      let later = All-IsAfter last' rest in
      elim (step_cases o last now snap) [
        | inl (same, skip) ↦ (
          rw skip (IsAfter-none last),
          subst (λ x. All (λ a. IsAfter x (round_of a)) acts) same later,
        )
        | inr (new, round, after) ↦ (
          rw round after,
          All-weaken last snap.block_round_info after acts
              (subst (λ x. All (λ a. IsAfter x (round_of a)) acts) new later),
        )
      ]

  Ordered-manage :
      (last : Option RoundInfo) (events : List (Outside × ℕ × Snapshot))
      → Ordered (manage_validator e own_key last events)
  unfolding manage_validator
  Ordered-manage last [] = tt
  Ordered-manage last ((o, now, snap) ∷ rest) =
      let (last', action) = process_state_snapshot e o own_key last now snap in
      let acts = manage_validator e own_key last' rest in
      let later = All-IsAfter last' rest in
      elim (step_cases o last now snap) [
        | inl (same, skip) ↦ (rw skip (All-none _), Ordered-manage last' rest)
        | inr (new, round, after) ↦ (
          rw round (subst (λ x. All (λ a. IsAfter x (round_of a)) acts) new later),
          Ordered-manage last' rest,
        )
      ]

-- A validator never votes twice for a round: in any run, the rounds that it commits to come one
-- after another, each later than all those before it and at no earlier height. Every action that
-- is no skip comes after the last vote that the validator had stored at the start.
pub manage_validator-Ordered :
    (e : Env) (own_key : ℕ) (last : Option RoundInfo) (events : List (Outside × ℕ × Snapshot))
    → Ordered (manage_validator e own_key last events)
      × All (λ a. IsAfter last (round_of a)) (manage_validator e own_key last events)
manage_validator-Ordered e own_key last events =
    (Ordered-manage e own_key last events, All-IsAfter e own_key last events)

process_skips :
    (e : Env) (o : Outside) (own_key : ℕ) (l : RoundInfo) (now : ℕ) (snap : Snapshot)
    → snap.block_round_info.round ≤ l.round
    → process_state_snapshot e o own_key (some l) now snap ≡ (some l, skipped)
unfolding process_state_snapshot
process_skips e o own_key l now snap low = ground arith

-- The other side of that guard: whatever the height, a validator that has voted in round `r` skips
-- each snapshot of a round up to `r`, votes in none of them, and stays as it is.
pub manage_validator_stuck :
    (e : Env) (own_key : ℕ) (l : RoundInfo) (events : List (Outside × ℕ × Snapshot))
    → All (λ (o, now, snap). snap.block_round_info.round ≤ l.round) events
    → All (λ a. a ≡ skipped) (manage_validator e own_key (some l) events)
unfolding manage_validator
manage_validator_stuck e own_key l [] low = tt
manage_validator_stuck e own_key l ((o, now, snap) ∷ rest) low =
    rw (process_skips e o own_key l now snap low.0)
      (refl, manage_validator_stuck e own_key l rest low.1)
