-- ===== src/Encryption/Registry.antt =====
-- The registry builds the strategy that a chain was made with.
use inca_go.Base.{ℕ, ◌≡◌, ◌≢◌, Bool, true, arith, length}
use inca_go.Result.{Result, ok, err, duplicate_impl}
use inca_go.Transactions.{Bytes}
use inca_go.Encryption.{
  Strategy, Ctor, Ctors, new_convergent_immutable_strategy, build_args,
  new_convergent_immutable_strategy_from_config, register_encryption_strategy_ctor,
  build_encryption_strategy,
}

-- The arguments that BuildArgs gives of a new strategy build that strategy again, in a registry where
-- its kind was registered last; a second registration of the kind fails; and the other kinds build
-- what they did.
pub build_args-strategy :
    (encode decode : Bytes → Result Bytes) (is_known : ℕ → Bool) (kind : ℕ) (random conf : Bytes)
    (s : Strategy) (old new : Ctors)
    → ((m w : Bytes) → encode m ≡ ok w → decode w ≡ ok m)
    → is_known kind ≡ true
    → length random ≡ 32
    → new_convergent_immutable_strategy (ok random) ≡ ok s
    → build_args encode s ≡ ok conf
    → register_encryption_strategy_ctor kind
        (new_convergent_immutable_strategy_from_config decode)
        old
      ≡ ok new
    → (build_encryption_strategy is_known kind conf new ≡ ok s)
      × ((ctor : Ctor) → register_encryption_strategy_ctor kind ctor new ≡ err duplicate_impl)
      × ((other : ℕ) (args : Bytes)
          → other ≢ kind
          → build_encryption_strategy is_known other args new
            ≡ build_encryption_strategy is_known other args old)
unfolding new_convergent_immutable_strategy build_args new_convergent_immutable_strategy_from_config
    register_encryption_strategy_ctor build_encryption_strategy
build_args-strategy encode decode is_known kind random conf s old new inverse known size made args
      registered =
    (ground (arith, inverse random conf), λ ctor. ground arith, λ other xs differs. ground arith)
