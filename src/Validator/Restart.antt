-- ===== src/Validator/Restart.antt =====
-- chain/validator.go, NewValidator with its state in the database: a validator over the restarts of
-- its node.
use inca_go.Base.{
  ℕ, ◌≡◌, refl, subst, ◌⊎◌, inl, inr, Bool, true, false, Option, none, some, List, [], ◌∷◌, arith,
  All, Bool-cases, if◌then◌else◌,
}
use inca_go.Wire.{RoundInfo, Env}
use inca_go.Result.{Result, ok, err, ◌>>◌, guard, bad_key, db_error, no_object_store}
use inca_go.Snapshot.{Snapshot}
use inca_go.Validator.{Outside, Action, skipped, recorded, voted, process_state_snapshot, vote_for}
use inca_go.Validator.Votes.{round_of, IsAfter, IsAfter-none, IsAfter-trans, step_cases}

-- What NewValidator and NewProposer find: whether the id and the bytes of the key can be had, the
-- state can be read and written, and the context has an object store.
pub record Boot : Type 0 where
  pub has_key : Bool
  pub readable : Bool
  pub writable : Bool
  pub has_store : Bool

-- The last vote that the new validator starts with. It writes back the state that it has read.
unfoldable pub new_validator : Boot → Option RoundInfo → Result (Option RoundInfo)
new_validator s stored = do
  guard s.has_key bad_key
  guard s.readable db_error
  guard s.writable db_error
  guard s.has_store no_object_store
  ok stored

-- What a node lives through: a snapshot that comes, with the clock and what is met outside, or the
-- end of the process and the next start.
pub data Life : Type 0 where
  sees : Outside → ℕ → Snapshot → Life
  restarts : Boot → Life

-- The last vote in the database after a snapshot.
unfoldable pub stored_after : Outside → Action → Option RoundInfo → Option RoundInfo
stored_after o skipped stored = stored
stored_after o (recorded r) stored = if o.state_written then some r else stored
stored_after o (voted r _) stored = if o.state_written then some r else stored

-- A start that fails leaves no validator running.
abbrev pub started : Result (Option RoundInfo) → Option (Option RoundInfo)
started (ok last) = some last
started (err _) = none

-- The actions of a node with the validator that runs, if one does, and the stored last vote.
unfoldable pub live :
    Env → ℕ → Option (Option RoundInfo) → Option RoundInfo → List Life → List Action
unfolding new_validator
live e own_key running stored [] = []
live e own_key running stored (restarts s ∷ rest) =
    live e own_key (started (new_validator s stored)) stored rest
live e own_key none stored (sees o now snap ∷ rest) = live e own_key none stored rest
live e own_key (some last) stored (sees o now snap ∷ rest) =
    let (last', action) = process_state_snapshot e o own_key last now snap in
    action ∷ live e own_key (some last') (stored_after o action stored) rest

-- The round of a vote that is cast.
abbrev pub voted_round : Action → Option RoundInfo
voted_round (voted r _) = some r
voted_round _ = none

abbrev pub VotesRise : List Action → Type 0
VotesRise [] = Unit
VotesRise (a ∷ rest) =
    All (λ (b : Action). IsAfter (voted_round a) (voted_round b)) rest × VotesRise rest

-- What comes after the running validator's last vote comes after the stored one.
abbrev pub Covers : Option RoundInfo → Option (Option RoundInfo) → Type 0
Covers stored none = Unit
Covers stored (some last) = (x : Option RoundInfo) → IsAfter last x → IsAfter stored x

new_validator-ok :
    (s : Boot) (stored last : Option RoundInfo) → new_validator s stored ≡ ok last → last ≡ stored
unfolding new_validator
new_validator-ok s stored last h = ground arith

Covers-started :
    (stored : Option RoundInfo) (r : Result (Option RoundInfo))
    → ((last : Option RoundInfo) → r ≡ ok last → last ≡ stored)
    → Covers stored (started r)
Covers-started stored (err x) same = tt
Covers-started stored (ok last) same = λ x after. subst (λ l. IsAfter l x) (same last refl) after

stored_after_lem :
    (o : Outside) (a : Action) (r : RoundInfo) (stored : Option RoundInfo)
    → round_of a ≡ some r
    → stored_after o a stored ≡ (if o.state_written then some r else stored)
unfolding stored_after
stored_after_lem o skipped r stored h = ground arith
stored_after_lem o (recorded q) r stored h = ground arith
stored_after_lem o (voted q x) r stored h = ground arith

voted_cases :
    (a : Action) (r : RoundInfo)
    → round_of a ≡ some r
    → (voted_round a ≡ none) ⊎ (voted_round a ≡ some r)
voted_cases skipped r h = inl refl
voted_cases (recorded q) r h = inl refl
voted_cases (voted q x) r h = inr h

module _ (e : Env) (own_key : ℕ) where
  -- A vote is cast only where the state was written.
  process-written :
      (o : Outside) (last : Option RoundInfo) (now : ℕ) (snap : Snapshot)
      → (o.state_written ≡ true)
        ⊎ (voted_round (process_state_snapshot e o own_key last now snap).1 ≡ none)
  unfolding process_state_snapshot vote_for
  process-written o last now snap = elim (Bool-cases o.state_written) [
    | inl written ↦ inl written
    | inr lost ↦ inr (ground arith)
  ]

  -- What one snapshot does to the votes that may follow.
  record Advance (stored stored' last' : Option RoundInfo) (vote : Option RoundInfo) : Type 0 where
    covers : Covers stored' (some last')
    onward : (x : Option RoundInfo) → IsAfter stored' x → IsAfter stored x
    cast : IsAfter stored vote
    passed : (x : Option RoundInfo) → IsAfter stored' x → IsAfter vote x

  -- The cases of a snapshot that commits to the round `r`.
  commit_cases :
      (written : Bool) (r : RoundInfo) (stored last vote : Option RoundInfo)
      → Covers stored (some last)
      → IsAfter last (some r)
      → (vote ≡ none) ⊎ ((vote ≡ some r) × (written ≡ true))
      → Advance stored (if written then some r else stored) (some r) vote
  commit_cases true r stored last vote covers after (inl silent) = record {
    covers = λ x h. h;
    onward = λ x h. IsAfter-trans stored r x (covers (some r) after) h;
    cast = rw silent (IsAfter-none stored);
    passed = λ x h. rw silent tt;
  }
  commit_cases true r stored last vote covers after (inr (spoken, _)) = record {
    covers = λ x h. h;
    onward = λ x h. IsAfter-trans stored r x (covers (some r) after) h;
    cast = rw spoken (covers (some r) after);
    passed = λ x h. rw spoken h;
  }
  commit_cases false r stored last vote covers after (inl silent) = record {
    covers = λ x h. covers x (IsAfter-trans last r x after h);
    onward = λ x h. h;
    cast = rw silent (IsAfter-none stored);
    passed = λ x h. rw silent tt;
  }
  commit_cases false r stored last vote covers after (inr (_, no_way)) = absurd (ground arith)

  step-Advance :
      (o : Outside) (last : Option RoundInfo) (now : ℕ) (snap : Snapshot)
      (stored : Option RoundInfo)
      → Covers stored (some last)
      → let (last', action) = process_state_snapshot e o own_key last now snap in
        Advance stored (stored_after o action stored) last' (voted_round action)
  unfolding stored_after
  step-Advance o last now snap stored covers =
      let (last', action) = process_state_snapshot e o own_key last now snap in
      elim (step_cases e own_key o last now snap) [
        | inl (same, skip) ↦
            rw (same, skip)
              (record {
                covers = covers;
                onward = λ x h. h;
                cast = IsAfter-none stored;
                passed = λ x h. tt;
              })
        | inr (new, round, after) ↦
            rw (new, stored_after_lem o action snap.block_round_info stored round)
              (commit_cases o.state_written snap.block_round_info stored last (voted_round action)
                covers after
                (elim (voted_cases action snap.block_round_info round) [
                  | inl silent ↦ inl silent
                  | inr spoken ↦ elim (process-written o last now snap) [
                    | inl written ↦ inr (spoken, written)
                    | inr silent ↦ inl silent
                  ]
                ]))
      ]

  All-onward :
      (stored : Option RoundInfo) (acts : List Action) (vote : Option RoundInfo)
      → ((x : Option RoundInfo) → IsAfter stored x → IsAfter vote x)
      → All (λ (a : Action). IsAfter stored (voted_round a)) acts
      → All (λ (a : Action). IsAfter vote (voted_round a)) acts
  All-onward stored [] vote step all = tt
  All-onward stored (a ∷ acts) vote step all =
      (step (voted_round a) all.0, All-onward stored acts vote step all.1)

  live-later :
      (running : Option (Option RoundInfo)) (stored : Option RoundInfo) (life : List Life)
      → Covers stored running
      → All (λ (a : Action). IsAfter stored (voted_round a)) (live e own_key running stored life)
        × VotesRise (live e own_key running stored life)
  unfolding live
  live-later running stored [] covers = (tt, tt)
  live-later running stored (restarts s ∷ rest) covers =
      live-later (started (new_validator s stored)) stored rest
        (Covers-started stored (new_validator s stored) (new_validator-ok s stored))
  live-later none stored (sees o now snap ∷ rest) covers = live-later none stored rest tt
  live-later (some last) stored (sees o now snap ∷ rest) covers =
      let (last', action) = process_state_snapshot e o own_key last now snap in
      let step = step-Advance o last now snap stored covers in
      let stored' = stored_after o action stored in
      let later = live-later (some last') stored' rest step.covers in
      let acts = live e own_key (some last') stored' rest in
      (
        (step.cast, All-onward stored' acts stored step.onward later.0),
        (All-onward stored' acts (voted_round action) step.passed later.0, later.1),
      )

-- A validator never votes twice for a round, however often its node ends and starts again in
-- between: the rounds of the votes that it casts rise, and come after the last vote that was stored
-- at first. That holds also where the state cannot be written at some of the rounds, or a start
-- fails.
pub live-VotesRise :
    (e : Env) (own_key : ℕ) (stored : Option RoundInfo) (life : List Life)
    → VotesRise (live e own_key none stored life)
      × All (λ (a : Action). IsAfter stored (voted_round a)) (live e own_key none stored life)
live-VotesRise e own_key stored life =
    let (after, rise) = live-later e own_key none stored life tt in (rise, after)
