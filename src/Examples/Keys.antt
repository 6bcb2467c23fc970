-- ===== src/Examples/Keys.antt =====
-- The theorems of the trust store and of the key lifecycle at concrete inputs.
use governed_autonomy_substr.Base.{
  List, String-discrete, [], lookup, none, ok, refl, some, ◌∷◌, ◌≡◌,
}
use governed_autonomy_substr.Examples.World.{toy}
use governed_autonomy_substr.KeyLifecycle.{
  KeyRecord, KeyStatus, Manager, active, get_key, revoke_key, row, set_status,
}
use governed_autonomy_substr.KeyLifecycle.History.{Call, HasRevoked, revoked_forever, run}
use governed_autonomy_substr.KeyLifecycle.Linked.{IsLinked}
use governed_autonomy_substr.Trust.{TrustStore, empty_trust, resolve, revoke}

abbrev store : TrustStore
store = record { known = ("a", "key-a") ∷ ("b", "key-b") ∷ []; revoked = "b" ∷ [] }

abbrev history : List Call
history =
    Call.registers "k1" "kms" "key-1" 10
    ∷ Call.rotates "k1" "k2" "kms" "key-2" 20
    ∷ Call.revokes "k1" 30
    ∷ []

abbrev second_row : KeyRecord
second_row = record {
  key_id = "k2";
  provider = "kms";
  status = active;
  created_at = 20;
  revoked_at = none;
}

abbrev managed : Manager
managed = run history (record { trust_store = empty_trust; rows = [] })

abbrev one_key : Manager
one_key = record {
  trust_store = record { known = ("k2", "key-2") ∷ []; revoked = [] };
  rows = second_row ∷ [];
}

one_key-IsLinked : IsLinked one_key
unfolding resolve lookup String-discrete
one_key-IsLinked = (refl, tt)

abbrev revoked_one : Manager
revoked_one = record {
  trust_store = record { known = ("k2", "key-2") ∷ []; revoked = "k2" ∷ [] };
  rows = record second_row { status = KeyStatus.revoked_key; revoked_at = some 30 } ∷ [];
}

revoke_k2 : revoke_key "k2" 30 one_key ≡ ok revoked_one
unfolding revoke_key row get_key set_status revoke String-discrete lookup
revoke_k2 = refl

revoked_forever_example :
    HasRevoked "k2" (run history revoked_one)
    × (resolve "k2" (run history revoked_one).trust_store ≡ none)
revoked_forever_example =
    revoked_forever "k2" 30 one_key revoked_one history one_key-IsLinked revoke_k2
