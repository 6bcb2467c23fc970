-- ===== src/Trust.antt =====
-- trust.py: the registry of issuer keys, with revocation. Writing the file is left out: `to_dict` and
-- `load_trust` are what is written and what is accepted when it is read back.
pub mod Revocation
use governed_autonomy_substr.Base.{
  Dict, List, Option, Outcome, String, [], all, contains, eq_text, if◌then◌else◌, insert, is_blank,
  is_in, keep, key_error, keys, lookup, map, none, not, ok, or_raise, raise_if, some, sorted,
  sorted_items, unique, value_error, ◌&&◌, ◌>>=◌, ◌>>◌, ◌∷◌, ◌⧺◌,
}
use governed_autonomy_substr.Platform.{Platform, PublicKey}
use governed_autonomy_substr.Value.{Value, as_dict, as_list, as_text, dict, get, text, texts}

pub record TrustStore : Type 0 where
  -- `_keys` and `_revoked`.
  pub known : Dict PublicKey
  pub revoked : List String

unfoldable pub empty_trust : TrustStore
empty_trust = record { known = []; revoked = [] }

-- `set.discard`.
unfoldable pub discard : String → List String → List String
discard s xs = keep (λ (x : String). not (eq_text x s)) xs

unfoldable pub add : String → PublicKey → TrustStore → Outcome TrustStore
unfolding discard
add key_id public_key store = do
  raise_if (is_blank key_id) (value_error "key_id must not be empty")
  raise_if (contains key_id store.known && not (is_in key_id store.revoked))
      (value_error ("issuer key already exists: " ⧺ key_id))
  ok (record {
    known = insert key_id public_key store.known;
    revoked = discard key_id store.revoked;
  })

unfoldable pub revoke : String → TrustStore → Outcome TrustStore
revoke key_id store = do
  raise_if (not (contains key_id store.known)) (key_error ("unknown issuer key: " ⧺ key_id))
  ok (record store { revoked = key_id ∷ store.revoked })

unfoldable pub resolve : String → TrustStore → Option PublicKey
resolve key_id store = if is_in key_id store.revoked then none else lookup key_id store.known

unfoldable pub to_dict : TrustStore → Value
to_dict store =
    let entry : String × PublicKey → String × Value = λ e. (e.0, text e.1) in
    dict (
      ("keys", dict (map entry (sorted_items store.known)))
      ∷ ("revoked", texts (sorted (unique store.revoked)))
      ∷ [])

-- The strings of a list, or `none` if one entry is no string.
unfoldable pub strings : List Value → Option (List String)
strings [] = some []
strings (v ∷ vs) = elim (as_text v) [
  | none ↦ none
  | some s ↦ elim (strings vs) [ none ↦ none | some ss ↦ some (s ∷ ss) ]
]

module _ ⦃p : Platform⦄ where
  unfoldable pub load_keys : Dict Value → Outcome (Dict PublicKey)
  load_keys [] = ok []
  load_keys ((key_id, encoded) ∷ rest) =
      raise_if (is_blank key_id) (value_error "trust store contains an invalid key ID")
      >> (or_raise (as_text encoded) (value_error "trust store contains an invalid public key")
          >>= λ written.
              or_raise (p.load_public_key written)
                (value_error "trust store could not be loaded safely")
              >>= λ key. load_keys rest >>= λ loaded. ok ((key_id, key) ∷ loaded))

  unfoldable pub load_trust : Value → Outcome TrustStore
  unfolding load_keys strings
  load_trust value =
      let invalid = value_error "trust store has an invalid schema" in
      do
        payload ← or_raise (as_dict value) invalid
        raise_if
            (not (
              contains "keys" payload
              && contains "revoked" payload
              && all (λ (k : String). is_in k ("keys" ∷ "revoked" ∷ [])) (keys payload)))
            invalid
        written ← or_raise (as_dict (get "keys" payload)) invalid
        listed ← or_raise (as_list (get "revoked" payload)) invalid
        revoked ← or_raise (strings listed) invalid
        known ← load_keys written
        raise_if (not (all (λ (k : String). contains k known) revoked))
            (value_error "trust store revokes an unknown key")
        ok (record { known = known; revoked = revoked })
