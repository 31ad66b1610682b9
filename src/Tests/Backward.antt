-- ===== src/Tests/Backward.antt =====
-- The theorem on rewinding, at a segment of the second block where no segment has the first one.
use inca_go.Base.{◌≡◌, ◌≢◌, ◌⊎◌, refl, none}
use inca_go.Wire.{disjointed}
use inca_go.Block.{validate_child}
use inca_go.World.{World, get_block, write_block, write_segment}
use inca_go.Segment.{rewind_once}
use inca_go.Segment.Rewind.{Moved, rewind_once-Rewound}
use inca_go.Tests.{env, world}
use inca_go.Tests.Growth.{world_of}

abbrev apart : World
apart = record world { blocks = λ d. record { segment_id = 0; next_block = 0 } }

abbrev longer : World
longer = world_of (rewind_once env none 4 apart)

rewind_once-Rewound_example :
    (((apart.memory 4).status ≢ disjointed) × (longer ≡ apart)) ⊎ Moved env none 4 apart longer
unfolding rewind_once get_block write_block write_segment validate_child
rewind_once-Rewound_example = rewind_once-Rewound env none 4 apart longer refl
