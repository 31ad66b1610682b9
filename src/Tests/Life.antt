-- ===== src/Tests/Life.antt =====
-- The invariant of the segments and blocks, over a short life of a node.
use inca_go.Base.{refl, true, false, none, List, [], ◌∷◌, arith}
use inca_go.World.{World, get_block, write_block, get_segment_by_id}
use inca_go.Segment.Store.{new_segment}
use inca_go.Chain.{write_state}
use inca_go.Chain.New.{new_genesis, new_chain}
use inca_go.Integrity.{Sound, core}
use inca_go.Integrity.Life.{Event, commit, rewind, pass, restart, run, run-Sound}
use inca_go.Integrity.Start.{Empty}
use inca_go.Tests.{env, world}
use inca_go.Tests.Genesis.{stores, args, chain_config, registry, world_of}

abbrev pub nothing : World
nothing = record world {
  blocks = λ d. record { segment_id = 0; next_block = 0 };
  is_loaded = λ id. false;
  chain_state = record { state_segment = 0; last_height = 0; last_round = 0 };
  last_block = none;
  last_block_header = none;
}

abbrev pub made : World
made = world_of (new_chain env stores args nothing)

-- The second block comes, the first segment is rewound, the state is checked, and the node starts
-- again.
abbrev life : List Event
life = commit none 9 2 ∷ rewind none ∷ pass 7000000000 7000000001 ∷ restart chain_config ∷ []

pub nothing-Empty : Empty nothing
nothing-Empty = record {
  no_blocks = λ d. refl;
  no_segments = λ s. refl;
  no_memory = λ s. refl;
  no_queue = refl;
  no_state = refl;
  no_stored_state = refl;
}

run-Sound_example :
    Sound env (core (run env stores (λ k. true) registry (new_genesis args 60) life made))
unfolding new_chain get_block new_segment write_block write_state get_segment_by_id
run-Sound_example =
    run-Sound env stores (λ k. true) registry (new_genesis args 60) args nothing made chain_config
      life nothing-Empty (omega arith) refl
      (record { not_nil = omega arith; not_stored = refl; not_loaded = refl }, (tt, (tt, (tt, tt))))
