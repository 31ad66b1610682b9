-- ===== src/Validators/Answers.antt =====
-- What the built-in validators decide on a child block.
use inca_go.Base.{◌≡◌, ◌≢◌, refl, Bool, some, arith}
use inca_go.Wire.{Env}
use inca_go.Result.{ok}
use inca_go.Block.{Block, validate_child, judge}
use inca_go.Block.Validate.{validate_child-ok_iff}
use inca_go.Validators.{allow_all, deny_all, immutable_validator_set}

deny_all-judge : (b child : Block) (mark : Bool) → judge (some deny_all) child b ≢ ok mark
unfolding judge deny_all
deny_all-judge b child mark same = ground arith

-- With the validator that denies, ValidateChild accepts no child; with the validator of an
-- immutable validator set its result is the same as with the one that allows all.
built_in_lem :
    (e : Env) (b child : Block)
    → ((mark : Bool) → validate_child e b child (some deny_all) ≢ ok mark)
      × (validate_child e b child (some immutable_validator_set)
          ≡ validate_child e b child (some allow_all))
unfolding validate_child judge immutable_validator_set allow_all
built_in_lem e b child = (
  λ mark accepted.
      deny_all-judge b child mark
        ((validate_child-ok_iff e b child (some deny_all) mark).0 accepted).1,
  refl,
)
