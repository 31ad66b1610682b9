-- ===== src/Integrity/Life.antt =====
-- Everything that a node does to its segments and blocks, from the making of its chain on.
use mathlib.Core.List.{not-mem-nil}
use inca_go.Base.{ℕ, ◌≡◌, ◌≢◌, refl, inl, inr, Bool, Option, List, [], ◌∷◌, arith, Option-cases}
use inca_go.Wire.{Ref, Env}
use inca_go.Result.{Result-cases}
use inca_go.Block.{BlockValidator}
use inca_go.World.{World, done, forget, access}
use inca_go.Segment.Store.{rewind_next}
use inca_go.Encryption.{Ctors, build_encryption_strategy}
use inca_go.Chain.{handle_block_commit, handle_segment_updated, manage_state_once}
use inca_go.Chain.New.{Genesis, Config, Stores, NewArgs, start_chain, new_chain, from_config}
use inca_go.Chain.New.Start.{new_chain-start_chain}
use inca_go.Integrity.{core, Named, Sound, Whole-Stays, Holds, Good, Good-trans, bind-Holds}
use inca_go.Integrity.Calls.{unchanged, access-Holds}
use inca_go.Integrity.Queued.{chain_write}
use inca_go.Integrity.Commit.{Fresh, handle_block_commit-Good}
use inca_go.Integrity.Pass.{manage_state_once-Good}
use inca_go.Integrity.Handler.{Holds-after, rewind_next-Sound}
use inca_go.Integrity.Loads.{after}
use inca_go.Integrity.Start.{Empty, Empty-Sound, start_chain-Good, done-Sound}

-- What a node does: a block commit that a peer sends, with the id of a segment that it may make; a
-- rewind of the first segment in the queue; a pass over the chain's state at two readings of the
-- clock; and the end of the process with the next start. The block validator may be another each
-- time.
pub data Event : Type 0 where
  commit : Option BlockValidator → ℕ → Ref → Event
  rewind : Option BlockValidator → Event
  pass : ℕ → ℕ → Event
  restart : Config → Event

module _ (e : Env) (st : Stores) (is_known : ℕ → Bool) (ctors : Ctors) (genesis : Genesis) where
  -- An error is logged, and what was changed before it stays.
  unfoldable pub step : Event → World → World
  unfolding forget
  step (commit v uid blk_ref) w = after (handle_block_commit e v uid blk_ref w)
  step (rewind v) w =
      after (rewind_next e v (handle_segment_updated e genesis.init_chain_config_ref) w)
  step (pass now now') w = after (manage_state_once e now now' w)
  step (restart conf) w = after (from_config e st is_known ctors conf (forget w))

  unfoldable pub run : List Event → World → World
  unfolding step
  run [] w = w
  run (ev ∷ evs) w = run evs (step ev w)

  -- The ids that uuid.NewV4 gives are new.
  abbrev pub FreshAt : Event → World → Type 0
  FreshAt (commit v uid blk_ref) w = Fresh uid (core w)
  FreshAt _ w = Unit

  abbrev pub AllFresh : List Event → World → Type 0
  AllFresh [] w = Unit
  AllFresh (ev ∷ evs) w = FreshAt ev w × AllFresh evs (step ev w)

  forget-Sound : (w : World) → Sound e (core w) → Sound e (core (forget w))
  unfolding forget
  forget-Sound w sound =
      let c = core w in
      let c' = core (forget w) in
      let named : (s : ℕ) → Named e c s → Named e c' s = λ s n. elim n [
        | inl nil ↦ inl nil
        | inr (x, found, whole) ↦ inr (x, found, Whole-Stays e c c' s x (λ d h. refl) whole)
      ] in
      record {
        placed = λ d. named _ (sound.placed d);
        linked = sound.linked;
        stored = λ s x h. let (n, p) = sound.stored s x h in (named _ n, named _ p);
        loaded = λ s h. absurd (ground (arith, h));
        queued = λ s h. absurd (not-mem-nil h);
        state = inl refl;
        stored_state = named _ sound.stored_state;
      }

  from_config-Sound :
      (conf : Config) (w : World)
      → Sound e (core w)
      → Holds e (λ _. Good e w) (from_config e st is_known ctors conf w)
  unfolding from_config
  from_config-Sound conf w sound =
      elim (Result-cases
        (build_encryption_strategy is_known conf.encryption_strategy conf.encryption_args ctors)) [
          | inr (x, bad) ↦ rw bad (record { ends = sound })
          | inl (strat, built) ↦ elim (Option-cases (st.follow_genesis conf.genesis_ref)) [
            | inl lost ↦ rw (built, lost) (record { ends = sound })
            | inr (g, found) ↦
                rw (built, found)
                  (bind-Holds e (access e w) _ (access-Holds e w sound) (λ u w1 same.
                    let good = unchanged e w w1 sound same in
                    record {
                      ends =
                          Good-trans e w w1 (record w1 { chain_state = w1.stored_chain_state }) good
                            (chain_write e (core w1) w1.queue w1.stored_chain_state.state_segment
                              w1.stored_chain_state.state_segment good.0 good.0.queued
                              good.0.stored_state good.0.stored_state);
                    }))
          ]
        ]

  step-Sound :
      (ev : Event) (w : World) → Sound e (core w) → FreshAt ev w → Sound e (core (step ev w))
  unfolding step
  step-Sound (commit v uid blk_ref) w sound fresh =
      Holds-after e (λ _. Good e w) _ (λ _ x h. h.0)
        (handle_block_commit-Good e v uid blk_ref w sound fresh)
  step-Sound (rewind v) w sound fresh =
      Holds-after e (λ _ x. Sound e (core x)) _ (λ _ x h. h)
        (rewind_next-Sound e v genesis.init_chain_config_ref w sound)
  step-Sound (pass now now') w sound fresh =
      Holds-after e (λ _. Good e w) _ (λ _ x h. h.0) (manage_state_once-Good e now now' w sound)
  step-Sound (restart conf) w sound fresh =
      Holds-after e (λ _. Good e (forget w)) _ (λ _ x h. h.0)
        (from_config-Sound conf (forget w) (forget-Sound w sound))

  events-Sound :
      (evs : List Event) (w : World)
      → Sound e (core w)
      → AllFresh evs w
      → Sound e (core (run evs w))
  unfolding run
  events-Sound [] w sound fresh = sound
  events-Sound (ev ∷ evs) w sound (fresh, rest) =
      events-Sound evs (step ev w) (step-Sound ev w sound fresh) rest

  -- From the making of a chain on, whatever commits, rewinds, passes and restarts come, and wherever
  -- an access of the database fails in them: every id of a segment that a block, a segment, the
  -- queue or the chain names is that of a segment in the database; the first and the last block of
  -- such a segment are in it; and the next block of a block names that block as the one before it.
  -- The operations come one after another, and each new segment gets a new id.
  pub run-Sound :
      (a : NewArgs) (w w' : World) (conf : Config) (evs : List Event)
      → Empty w
      → a.uid ≢ 0
      → new_chain e st a w ≡ done (conf, genesis) w'
      → AllFresh evs w'
      → Sound e (core (run evs w'))
  run-Sound a w w' conf evs empty named made fresh =
      let (blk_ref, header, started) = new_chain-start_chain e st a w w' conf genesis made in
      let new : Fresh a.uid (core w) = record {
        not_nil = named;
        not_stored = empty.no_segments a.uid;
        not_loaded = empty.no_memory a.uid;
      } in
      events-Sound evs w'
        (done-Sound e st (start_chain e st a.uid blk_ref header w) w w' started
          (start_chain-Good e st a.uid blk_ref header w (Empty-Sound e st w empty) empty new))
        fresh
