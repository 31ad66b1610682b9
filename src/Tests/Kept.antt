-- ===== src/Tests/Kept.antt =====
-- The theorems on the keys and states in the database, with texts as the states.
use inca_go.Base.{◌≡◌, refl, sym, some, none, List, [], ◌∷◌, ◌++◌, arith}
use inca_go.Result.{ok}
use inca_go.Transactions.{Bytes}
use inca_go.Storage.{codes, Owner, peer_state, segment_state, chain_state, key}
use inca_go.Storage.Keys.{owner_of, owner_of-key}
use inca_go.Storage.State.{Codec}
use inca_go.Storage.State.Isolation.{write_owned, read_owned, write_all, read_owned-write_owned}
use inca_go.Tests.Ledger.{Store, db, db-Keeps, ok_value}

abbrev behind : Bytes → Bytes → Bytes
behind p k = p ++ k

abbrev texts : Codec Bytes
texts = record { marshal = λ s. some s; unmarshal = λ b. some b }

abbrev fresh : Store
fresh = λ k. none

-- The segment "7" of the chain "a", and then the state of that chain.
abbrev segment_7 : Owner
segment_7 = segment_state (codes "a") (codes "7")

owner_of-key_example : owner_of (key behind segment_7) ≡ some segment_7
owner_of-key_example = owner_of-key behind segment_7 (λ p k. refl) (omega arith, tt)

segment_key_text : key behind segment_7 ≡ codes "/chain/a/segments/7"
unfolding key
segment_key_text = refl

-- The state of the chain and of a peer are written behind that of the segment.
abbrev later : List (Owner × Bytes)
later = (chain_state (codes "a"), 1 ∷ []) ∷ (peer_state (codes "Q"), 2 ∷ []) ∷ []

abbrev first : Store
first = ok_value fresh (write_owned db texts behind segment_7 (5 ∷ []) fresh)

abbrev last : Store
last = ok_value fresh (write_all db texts behind later first)

read_owned-write_owned_example : read_owned db texts behind segment_7 [] last ≡ ok (5 ∷ [])
unfolding write_owned write_all
read_owned-write_owned_example =
    read_owned-write_owned db texts behind db-Keeps (λ p k. refl) segment_7 (5 ∷ []) [] fresh first
      last later (λ dat h. sym h) (λ h. ground (arith, h)) (λ h. ground (arith, h))
      (omega arith, tt)
      (
        ((omega arith, tt), λ h. ground (arith, h)),
        (((omega arith, tt), λ h. ground (arith, h)), tt),
      )
      refl refl
