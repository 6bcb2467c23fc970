-- ===== src/KeyLifecycle.antt =====
-- key_lifecycle.py: signing keys go from ACTIVE to ROTATED or REVOKED, bound to the trust store. The
-- table of the database is a list of rows, oldest first, and a time is a number of ticks.
pub mod Linked
pub mod History
use governed_autonomy_substr.Base.{
  Bool, List, Option, Outcome, String, [], eq_text, false, if◌then◌else◌, is_blank, is_some, keep,
  key_error, leb, none, not, ok, or_raise, raise_if, some, sort_by, true, value_error, ℕ, ◌&&◌,
  ◌++◌, ◌>>=◌, ◌>>◌, ◌||◌, ◌∷◌, ◌⧺◌,
}
use governed_autonomy_substr.Platform.{PublicKey}
use governed_autonomy_substr.Trust.{TrustStore, add, revoke}

pub data KeyStatus : Type 0 where
  active rotated revoked_key : KeyStatus

pub record KeyRecord : Type 0 where
  pub key_id : String
  pub provider : String
  pub status : KeyStatus
  pub created_at : ℕ
  pub revoked_at : Option ℕ

pub record Manager : Type 0 where
  pub trust_store : TrustStore
  pub rows : List KeyRecord

abbrev pub is_active : KeyStatus → Bool
is_active active = true
is_active _ = false

abbrev pub is_revoked : KeyStatus → Bool
is_revoked revoked_key = true
is_revoked _ = false

-- `_row`: the row of a key id.
unfoldable pub row : String → List KeyRecord → Option KeyRecord
row key_id [] = none
row key_id (r ∷ rs) = if eq_text r.key_id key_id then some r else row key_id rs

unfoldable pub get_key : String → Manager → Outcome KeyRecord
unfolding row
get_key key_id m = or_raise (row key_id m.rows) (key_error ("unknown key: " ⧺ key_id))

-- `UPDATE key_lifecycle SET status=?, revoked_at=? WHERE key_id=?`.
unfoldable pub set_status : String → KeyStatus → Option ℕ → List KeyRecord → List KeyRecord
set_status key_id status at [] = []
set_status key_id status at (r ∷ rs) =
    (if eq_text r.key_id key_id then record r { status = status; revoked_at = at } else r)
    ∷ set_status key_id status at rs

unfoldable pub register : String → String → PublicKey → ℕ → Manager → Outcome (KeyRecord × Manager)
register key_id provider public_key now m = do
  raise_if (is_blank key_id || is_blank provider) (value_error "key_id and provider are required")
  raise_if (is_some (row key_id m.rows)) (value_error ("key already registered: " ⧺ key_id))
  trust_store ← add key_id public_key m.trust_store
  let entry : KeyRecord = record {
    key_id = key_id;
    provider = provider;
    status = active;
    created_at = now;
    revoked_at = none;
  }
  ok (entry, record { trust_store = trust_store; rows = m.rows ++ entry ∷ [] })

unfoldable pub rotate :
    String → String → String → PublicKey → ℕ → Manager → Outcome (KeyRecord × Manager)
rotate old_key_id new_key_id provider new_public_key now m = do
  old ← get_key old_key_id m
  raise_if (not (is_active old.status)) (value_error "only an ACTIVE key can be rotated")
  registered ← register new_key_id provider new_public_key now m
  let m' = registered.1
  ok (registered.0, record m' { rows = set_status old_key_id rotated old.revoked_at m'.rows })

unfoldable pub revoke_key : String → ℕ → Manager → Outcome Manager
revoke_key key_id now m = do
  found ← get_key key_id m
  trust_store ← revoke key_id m.trust_store
  ok (record { trust_store = trust_store; rows = set_status key_id revoked_key (some now) m.rows })

unfoldable pub trust_list : Manager → List KeyRecord
trust_list m =
    sort_by (λ (a : KeyRecord) (b : KeyRecord). leb a.created_at b.created_at)
      (keep (λ (r : KeyRecord). not (is_revoked r.status)) m.rows)

-- The newest ACTIVE row.
unfoldable pub newest : List KeyRecord → Option KeyRecord
newest [] = none
newest (r ∷ rs) = elim (newest rs) [
  | none ↦ if is_active r.status then some r else none
  | some best ↦ if is_active r.status && leb best.created_at r.created_at then some r else some best
]

unfoldable pub active_key : Manager → Option KeyRecord
unfolding newest
active_key m = newest m.rows
