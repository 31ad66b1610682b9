-- ===== src/Result.antt =====
-- How a call of the source ends: a value or an error. The errors carry the cause, not the text.
use inca_go.Base.{◌≡◌, refl, ◌⊎◌, inl, inr, Bool, true, false, Option, none, some}

pub data Error : Type 0 where
  -- block.ValidateChild
  genesis_mismatch wrong_height early_timestamp config_mismatch next_config_mismatch : Error
  no_proposer wrong_proposer block_denied unknown_validator : Error
  -- segment
  fork next_segment_exists same_segment unexpected_status : Error
  -- chain
  no_state_segment future_block short_round no_chain_id : Error
  -- utils/transaction
  not_app_message wrong_app_type no_timestamp unknown_tx bad_ratio : Error
  -- encryption; a panic is an error that no code handles.
  duplicate_impl unknown_strategy no_strategy no_object_store bad_psk no_decryption panics : Error
  -- peer
  not_from_peer empty_digest no_public_key key_mismatch : Error
  invalid_timestamp old_message future_message : Error
  -- examples/common and cmd/inca
  no_file config_exists : Error
  -- A reference that cannot be followed, an object that cannot be stored or decoded, a database
  -- access that fails, a key that does not parse.
  unresolved not_stored db_error bad_key : Error

pub data Result {ℓ} (T : Type ℓ) : Type ℓ where
  err : Error → Result T
  ok : T → Result T

infixl 5 ◌>>◌ ◌>>=◌
abbrev pub ◌>>=◌ {ℓ κ} : {T : Type ℓ} {S : Type κ} → Result T → (T → Result S) → Result S
err cause >>= next = err cause
ok value >>= next = next value

abbrev pub ◌>>◌ {ℓ} : {S : Type ℓ} → Result (Unit {0}) → Result S → Result S
err cause >> next = err cause
ok _ >> next = next

-- `if !test { return err }`
abbrev pub guard : Bool → Error → Result (Unit {0})
guard false cause = err cause
guard true cause = ok tt

abbrev pub or_fail {ℓ} : {A : Type ℓ} → Option A → Error → Result A
or_fail (some found) cause = ok found
or_fail none cause = err cause

pub Result-cases {ℓ} :
    {A : Type ℓ} (r : Result A) → ((a : A) × (r ≡ ok a)) ⊎ ((e : Error) × (r ≡ err e))
Result-cases (ok a) = inl (a, refl)
Result-cases (err e) = inr (e, refl)
