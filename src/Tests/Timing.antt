-- ===== src/Tests/Timing.antt =====
-- The theorems on the loop of the chain, its timer and its commits, with rounds of the small chain.
use inca_go.Base.{suc, ◌≢◌, ◌≡◌, refl, inl, true, false, none, some, [], ◌∷◌, arith}
use inca_go.Chain.Timer.{
  Timer, next_check_time, new_timer, set_timer, triggered, fired, wait, Pass, manage_state,
}
use inca_go.Chain.Timer.Wakes.{NoneMissed, manage_state_wakes}
use inca_go.Chain.Timer.Deaf.{first_wait_deaf}
use inca_go.World.{
  World, Run, done, failed, get_block, write_block, write_segment, get_segment_by_id,
}
use inca_go.Segment.{append_block}
use inca_go.Chain.{manage_state_once, handle_block_commit, trigger_state_recheck}
use inca_go.Chain.Commit.{handle_block_commit_lem}
use inca_go.Block.{validate_child}
use inca_go.Tests.{env, world, snapshot, header}

abbrev world_of : Run (Unit {0}) → World
world_of (done _ w) = w
world_of (failed _ w) = w

abbrev first : Pass
first = record {
  now = 1000000000;
  later = 1000000000;
  snap = some (snapshot 0);
  wake = fired;
  woken_at = 3500000000;
}

abbrev second_pass : Timer
second_pass = record {
  last_next_check_time = 3500000000;
  listens = true;
  deadline = none;
  held = false;
}

manage_state_wakes_example :
    NoneMissed 3500000000
      (next_check_time 3500000000 3500000000 (some (snapshot 0)))
      (some (snapshot 0))
    × (woken : Timer) × (wait fired 6500000000
          (set_timer 3500000000 3500000000 (some (snapshot 0)) second_pass)
        ≡ some woken)
unfolding manage_state set_timer wait new_timer next_check_time
manage_state_wakes_example =
    manage_state_wakes 0 0 (first ∷ []) second_pass 3500000000 3500000000 (some (snapshot 0))
      6500000000 (omega arith, omega arith, omega arith, omega arith, tt) refl (omega arith)
      (omega arith) (omega arith) (inl refl) (omega arith)

-- A pass after a trigger, before the first round has started.
abbrev idle : Pass
idle = record {
  now = 1000000000;
  later = 1000000000;
  snap = none;
  wake = triggered;
  woken_at = 2000000000;
}

first_wait_deaf_example :
    wait fired 90000000000 (set_timer 2000000000 2000000000 none (new_timer 0)) ≡ none
unfolding manage_state set_timer wait new_timer next_check_time
first_wait_deaf_example =
    first_wait_deaf 0 (idle ∷ []) (new_timer 0) 2000000000 2000000000 none 90000000000
      ((omega arith, tt), tt) refl (omega arith) tt

-- A pass over the state of the small chain, with its head unknown to it yet.
abbrev behind : World
behind = record world {
  last_head_digest = 0;
  last_block = none;
  last_block_header = none;
  last_block_ref = 0;
}

abbrev after : World
after = world_of (manage_state_once env 7000000000 7000000001 behind)

-- The second block is committed, behind the genesis block.
abbrev grown : World
grown = world_of (handle_block_commit env none 9 2 world)

handle_block_commit_lem_example :
    ((grown.blocks (env.object_digest 2)).segment_id ≢ 0)
    × (handle_block_commit env none 10 2 grown
        ≡ done tt (record grown { accesses = suc grown.accesses }))
unfolding handle_block_commit get_block append_block validate_child write_block write_segment
    get_segment_by_id trigger_state_recheck
handle_block_commit_lem_example =
    handle_block_commit_lem env none none 9 10 2 (record { block_header_ref = 12; vote_refs = [] })
      (header 1 1000000000 1) world grown (omega arith) refl refl refl refl refl
