-- ===== src/Trust/Revocation.antt =====
-- Which keys a trust store resolves, before and after each operation.
use governed_autonomy_substr.Base.{
  List, Option-cases, Outcome, String, [], ap, arith, eq_text, err, inl, inr, insert, is_in,
  is_some, lookup, lookup-insert_ne, lookup-insert_self, none, not, ok, refl, some, true, ◌&&◌, ◌∷◌,
  ◌≡◌, ◌≢◌, ◌⊎◌,
}
use governed_autonomy_substr.Platform.{PublicKey}
use governed_autonomy_substr.Trust.{TrustStore, add, discard, resolve, revoke}

pub is_in-discard :
    (s x : String) (xs : List String) → is_in s (discard x xs) ≡ (is_in s xs && not (eq_text s x))
unfolding discard
is_in-discard s x [] = refl
is_in-discard s x (y ∷ ys) = ground (arith, is_in-discard s x ys)

-- What `add` does: it raises exactly if the id is empty or resolves already, and otherwise the id
-- resolves to the new key and no other id changes.
abbrev pub Adds : String → PublicKey → TrustStore → Outcome TrustStore → Type 0
Adds key_id key store (err _) = (key_id ≡ "") ⊎ (is_some (resolve key_id store) ≡ true)
Adds key_id key store (ok store') =
    (key_id ≢ "")
    × (resolve key_id store ≡ none)
    × (resolve key_id store' ≡ some key)
    × ((other : String) → other ≢ key_id → resolve other store' ≡ resolve other store)

-- What `revoke` does: it raises exactly if the key is unknown, and otherwise the id resolves to nothing
-- and no other id changes.
abbrev pub Revokes : String → TrustStore → Outcome TrustStore → Type 0
Revokes key_id store (err _) = lookup key_id store.known ≡ none
Revokes key_id store (ok store') =
    (is_some (lookup key_id store.known) ≡ true)
    × (resolve key_id store' ≡ none)
    × ((other : String) → other ≢ key_id → resolve other store' ≡ resolve other store)

-- `add` raises exactly if the id is empty or resolves already. Otherwise the id resolves to the new key,
-- also where an old key of that id had been revoked, and no other id changes.
pub add-Adds :
    (key_id : String) (key : PublicKey) (store : TrustStore)
    → Adds key_id key store (add key_id key store)
unfolding add resolve
add-Adds key_id key store = ground (
  arith,
  is_in-discard key_id key_id store.revoked,
  lookup-insert_self key_id key store.known,
  added,
)
  where
    added :
        (other : String)
        → other ≢ key_id
        → resolve other (record {
          known = insert key_id key store.known;
          revoked = discard key_id store.revoked;
        })
          ≡ resolve other store
    added other h = ground (
      arith,
      is_in-discard other key_id store.revoked,
      lookup-insert_ne key_id other key store.known,
    )

-- `revoke` raises exactly if the key is unknown. Otherwise the id resolves to nothing from then on, and no
-- other id changes.
pub revoke-Revokes :
    (key_id : String) (store : TrustStore) → Revokes key_id store (revoke key_id store)
unfolding revoke resolve
revoke-Revokes key_id store = elim (Option-cases (lookup key_id store.known)) [
  | inl unknown ↦ ground arith
  | inr (key, found) ↦ rw found (ap is_some found, ground arith, (λ other h. ground arith))
]
