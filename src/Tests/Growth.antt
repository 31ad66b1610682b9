-- ===== src/Tests/Growth.antt =====
-- The theorems on blocks, segments and the queue, at the chain of two blocks.
use inca_go.Base.{
  ℕ, ◌≡◌, refl, ◌↔◌, Bool, false, none, some, [], ◌∷◌, Perm, arith, ◌==◌, if◌then◌else◌,
}
use inca_go.Result.{ok}
use inca_go.Block.{Block, validate_child, judge}
use inca_go.Block.Validate.{Follows, validate_child-ok_iff}
use inca_go.Block.Lineage.{start, grow, Descends, Line-Descends}
use inca_go.World.{World, Run, done, failed, get_block, write_block, write_segment}
use inca_go.Segment.{append_block, append_segment}
use inca_go.Segment.Append.{Extended, append_block_sound, append_block_complete}
use inca_go.Segment.Join.{Appended, append_segment_joins}
use inca_go.Segment.Queue
use inca_go.Segment.Queue.Members.{pop-first}
use inca_go.Tests.{env, world, genesis_block, second_block}

validate_child-ok_iff_example :
    (validate_child env genesis_block second_block none ≡ ok false)
    ↔ (Follows env genesis_block second_block × (judge none second_block genesis_block ≡ ok false))
validate_child-ok_iff_example = validate_child-ok_iff env genesis_block second_block none false

second-Follows : Follows env genesis_block second_block
unfolding validate_child judge
second-Follows = ((validate_child-ok_iff env genesis_block second_block none false).0 refl).0

Line-Descends_example : Descends env genesis_block 1 second_block
unfolding validate_child judge
Line-Descends_example =
    Line-Descends env genesis_block second_block 1 (λ x. ground arith)
      (λ x y z h k. ground (arith, h, k)) (omega arith)
      (grow 0 genesis_block second_block none false start refl)

-- The world after the second block is appended to segment 3.
abbrev pub world_of : Run (Unit {0}) → World
world_of (done _ w) = w
world_of (failed _ w) = w

abbrev grown : World
grown = world_of (append_block env none 3 2 second_block genesis_block world)

append_block_sound_example :
    (mark : Bool) × Follows env genesis_block second_block
    × (judge none second_block genesis_block ≡ ok mark)
    × Extended env 3 2 second_block genesis_block mark world grown
unfolding append_block write_block write_segment validate_child
append_block_sound_example =
    append_block_sound env none 3 2 second_block genesis_block world grown refl (omega arith) refl

append_block_complete_example :
    (w : World) × (append_block env none 3 2 second_block genesis_block world ≡ done tt w)
unfolding judge
append_block_complete_example =
    append_block_complete env none 3 2 second_block genesis_block world false refl refl
      second-Follows refl (λ n. refl)

-- The genesis block, with block 2 as its next one.
abbrev linked_block : Block
linked_block = record genesis_block { state = record { segment_id = 3; next_block = 2 } }

abbrev joined : World
joined = world_of (append_segment env none 3 4 world)

append_segment_joins_example : Appended env none 3 4 world joined
unfolding append_segment get_block write_segment validate_child
append_segment_joins_example = append_segment_joins env none 3 4 world joined (omega arith) refl

-- Heights fall along the queue.
abbrev heights : ℕ → ℕ
heights s = if s == 8 then 5 else 1

pop-first_example :
    ((Queue.pop heights (8 ∷ 9 ∷ [])).0 ≡ some 8)
    × Perm (8 ∷ (Queue.pop heights (8 ∷ 9 ∷ [])).1) (8 ∷ 9 ∷ [])
pop-first_example = pop-first heights 8 (9 ∷ [])
