-- ===== src/Validators.antt =====
-- validators/: the block validators that a node may be configured with, by name.
pub mod Answers
use inca_go.Base.{ℕ, ◌≡◌, refl, Bool, true, false, Option, none, some, ◌==◌, if◌then◌else◌, arith}
use inca_go.Result.{Result, ok, err, block_denied, unknown_validator}
use inca_go.Block.{Block, BlockValidator}

unfoldable pub allow_all : BlockValidator
allow_all proposed parent = ok false

unfoldable pub deny_all : BlockValidator
deny_all proposed parent = err block_denied

unfoldable pub immutable_validator_set : BlockValidator
immutable_validator_set proposed none = ok false
immutable_validator_set proposed (some parent) = ok false

-- The names of the table.
abbrev pub none_name : ℕ
none_name = 1

abbrev pub allow_name : ℕ
allow_name = 2

abbrev pub deny_name : ℕ
deny_name = 3

abbrev pub immutable_name : ℕ
immutable_name = 4

-- GetBuiltInValidator; the validator may be nil.
unfoldable pub get_built_in_validator : ℕ → Result (Option BlockValidator)
unfolding allow_all deny_all immutable_validator_set
get_built_in_validator name =
    if name == none_name
    then ok none
    else if name == allow_name
    then ok (some allow_all)
    else if name == deny_name
    then ok (some deny_all)
    else if name == immutable_name
    then ok (some immutable_validator_set)
    else err unknown_validator
