-- ===== src/KeyLifecycle/Linked.antt =====
-- The lifecycle table and the trust store agree, and a revoked key stays revoked.
-- An ACTIVE or ROTATED row has a key that resolves, and a REVOKED row has none.
use governed_autonomy_substr.Base.{
  All, List, Option, Option-cases, Outcome-cases, String, String-discrete, [], ap, arith, inl, inr,
  is_some, none, not, ok, some, subst, true, ℕ, ◌++◌, ◌∙◌, ◌∷◌, ◌≡◌, ◌≢◌,
}
use governed_autonomy_substr.KeyLifecycle.{
  KeyRecord, KeyStatus, Manager, active, get_key, is_revoked, register, revoke_key, revoked_key,
  rotate, rotated, row, set_status,
}
use governed_autonomy_substr.Platform.{PublicKey}
use governed_autonomy_substr.Trust.{TrustStore, add, resolve, revoke}
use governed_autonomy_substr.Trust.Revocation.{Adds, Revokes, add-Adds, revoke-Revokes}

abbrev pub Agrees : TrustStore → KeyRecord → Type 0
Agrees store r = is_some (resolve r.key_id store) ≡ not (is_revoked r.status)

abbrev pub AllAgree : TrustStore → List KeyRecord → Type 0
AllAgree store = All (Agrees store)

abbrev pub IsLinked : Manager → Type 0
IsLinked m = AllAgree m.trust_store m.rows

-- A change of the store that leaves the ids of the rows alone.
AllAgree-other :
    (store store' : TrustStore) (key_id : String) (rs : List KeyRecord)
    → row key_id rs ≡ none
    → ((other : String) → other ≢ key_id → resolve other store' ≡ resolve other store)
    → AllAgree store rs
    → AllAgree store' rs
unfolding row
AllAgree-other store store' key_id [] absent same h = tt
AllAgree-other store store' key_id (r ∷ rs) absent same h = elim (String-discrete r.key_id key_id) [
  | yes e ↦ absurd (ground arith)
  | no n ↦ (rw (same r.key_id n) h.0, AllAgree-other store store' key_id rs (ground arith) same h.1)
]

AllAgree-append :
    (store : TrustStore) (rs : List KeyRecord) (r : KeyRecord)
    → AllAgree store rs
    → Agrees store r
    → AllAgree store (rs ++ r ∷ [])
AllAgree-append store [] r h a = (a, tt)
AllAgree-append store (x ∷ rs) r h a = (h.0, AllAgree-append store rs r h.1 a)

-- A row whose status changes without being revoked or restored.
AllAgree-set_status :
    (store : TrustStore) (key_id : String) (status : KeyStatus) (at : Option ℕ)
    (rs : List KeyRecord)
    → is_some (resolve key_id store) ≡ not (is_revoked status)
    → AllAgree store rs
    → AllAgree store (set_status key_id status at rs)
unfolding set_status
AllAgree-set_status store key_id status at [] e h = tt
AllAgree-set_status store key_id status at (r ∷ rs) e h =
    ground (arith, AllAgree-set_status store key_id status at rs e h.1)

-- Revoking a key in the store and in the table.
AllAgree-revoke :
    (store store' : TrustStore) (key_id : String) (at : Option ℕ) (rs : List KeyRecord)
    → resolve key_id store' ≡ none
    → ((other : String) → other ≢ key_id → resolve other store' ≡ resolve other store)
    → AllAgree store rs
    → AllAgree store' (set_status key_id revoked_key at rs)
unfolding set_status
AllAgree-revoke store store' key_id at [] gone same h = tt
AllAgree-revoke store store' key_id at (r ∷ rs) gone same h =
    ground (arith, same r.key_id, AllAgree-revoke store store' key_id at rs gone same h.1)

-- The row that `register` writes.
abbrev pub new_row : String → String → ℕ → KeyRecord
new_row key_id provider now = record {
  key_id = key_id;
  provider = provider;
  status = active;
  created_at = now;
  revoked_at = none;
}

-- What a successful `register` has done.
pub register-ok :
    (key_id provider : String) (key : PublicKey) (now : ℕ) (m : Manager)
    (result : KeyRecord × Manager)
    → register key_id provider key now m ≡ ok result
    → (row key_id m.rows ≡ none)
      × (add key_id key m.trust_store ≡ ok result.1.trust_store)
      × (result.1.rows ≡ m.rows ++ new_row key_id provider now ∷ [])
unfolding register
register-ok key_id provider key now m result e =
    elim (Outcome-cases (add key_id key m.trust_store)) [
      | inr (failure, raised_it) ↦ absurd (ground arith)
      | inl (store, added) ↦ (ground arith, ground arith, ground arith)
    ]

pub register-IsLinked :
    (key_id provider : String) (key : PublicKey) (now : ℕ) (m : Manager)
    (result : KeyRecord × Manager)
    → IsLinked m
    → register key_id provider key now m ≡ ok result
    → IsLinked result.1
register-IsLinked key_id provider key now m result linked e =
    let (absent, added, rows_eq) = register-ok key_id provider key now m result e in
    let store = result.1.trust_store in
    let adds : Adds key_id key m.trust_store (ok store) =
      subst (Adds key_id key m.trust_store) added (add-Adds key_id key m.trust_store) in
    rw rows_eq (
      AllAgree-append store m.rows (new_row key_id provider now)
        (AllAgree-other m.trust_store store key_id m.rows absent adds.3 linked) (ap is_some adds.2))

-- What a successful `rotate` has done.
pub rotate-ok :
    (old_key_id new_key_id provider : String) (key : PublicKey) (now : ℕ) (m : Manager)
    (result : KeyRecord × Manager)
    → rotate old_key_id new_key_id provider key now m ≡ ok result
    → (old : KeyRecord) × (registered : KeyRecord × Manager) × (row old_key_id m.rows ≡ some old)
      × (old.status ≡ active)
      × (register new_key_id provider key now m ≡ ok registered)
      × (result.1.trust_store ≡ registered.1.trust_store)
      × (result.1.rows ≡ set_status old_key_id rotated old.revoked_at registered.1.rows)
unfolding rotate get_key
rotate-ok old_key_id new_key_id provider key now m result e =
    elim (Option-cases (row old_key_id m.rows)) [
      | inl absent ↦ absurd (ground arith)
      | inr (old, found) ↦ elim (Outcome-cases (register new_key_id provider key now m)) [
        | inr (failure, raised_it) ↦ absurd (ground arith)
        | inl (reg, made) ↦ (old, reg, found, ground arith, made, ground arith, ground arith)
      ]
    ]

-- In agreement, the key of a row resolves unless the row is revoked.
pub AllAgree-row :
    (store : TrustStore) (key_id : String) (rs : List KeyRecord) (r : KeyRecord)
    → AllAgree store rs
    → row key_id rs ≡ some r
    → is_some (resolve key_id store) ≡ not (is_revoked r.status)
unfolding row
AllAgree-row store key_id [] r h e = absurd (ground arith)
AllAgree-row store key_id (x ∷ rs) r h e = elim (String-discrete x.key_id key_id) [
  | yes same ↦ ground arith
  | no other ↦ AllAgree-row store key_id rs r h.1 (ground arith)
]

pub row-append :
    (key_id : String) (rs qs : List KeyRecord) (r : KeyRecord)
    → row key_id rs ≡ some r
    → row key_id (rs ++ qs) ≡ some r
unfolding row
row-append key_id [] qs r e = absurd (ground arith)
row-append key_id (x ∷ rs) qs r e = ground (arith, row-append key_id rs qs r)

pub rotate-IsLinked :
    (old_key_id new_key_id provider : String) (key : PublicKey) (now : ℕ) (m : Manager)
    (result : KeyRecord × Manager)
    → IsLinked m
    → rotate old_key_id new_key_id provider key now m ≡ ok result
    → IsLinked result.1
rotate-IsLinked old_key_id new_key_id provider key now m result linked e =
    let (old, reg, found, live, made, store_eq, rows_eq) =
      rotate-ok old_key_id new_key_id provider key now m result e in
    let (absent, added, new_rows) = register-ok new_key_id provider key now m reg made in
    let agree : IsLinked reg.1 = register-IsLinked new_key_id provider key now m reg linked made in
    let still : row old_key_id reg.1.rows ≡ some old =
      rw new_rows (row-append old_key_id m.rows (new_row new_key_id provider now ∷ []) old found) in
    rw (store_eq, rows_eq)
      (AllAgree-set_status reg.1.trust_store old_key_id rotated old.revoked_at reg.1.rows
        (AllAgree-row reg.1.trust_store old_key_id reg.1.rows old agree still
          ∙ ap (λ (s : KeyStatus). not (is_revoked s)) live)
        agree)

-- What a successful `revoke_key` has done.
pub revoke_key-ok :
    (key_id : String) (now : ℕ) (m m' : Manager)
    → revoke_key key_id now m ≡ ok m'
    → (is_some (row key_id m.rows) ≡ true)
      × (revoke key_id m.trust_store ≡ ok m'.trust_store)
      × (m'.rows ≡ set_status key_id revoked_key (some now) m.rows)
unfolding revoke_key get_key
revoke_key-ok key_id now m m' e = elim (Option-cases (row key_id m.rows)) [
  | inl absent ↦ absurd (ground arith)
  | inr (r, found) ↦ elim (Outcome-cases (revoke key_id m.trust_store)) [
    | inr (failure, raised_it) ↦ absurd (ground arith)
    | inl (store, done) ↦ (ap is_some found, ground arith, ground arith)
  ]
]

pub revoke_key-IsLinked :
    (key_id : String) (now : ℕ) (m m' : Manager)
    → IsLinked m
    → revoke_key key_id now m ≡ ok m'
    → IsLinked m'
revoke_key-IsLinked key_id now m m' linked e =
    let (present, revoked_it, rows_eq) = revoke_key-ok key_id now m m' e in
    let store = m'.trust_store in
    let revokes : Revokes key_id m.trust_store (ok store) =
      subst (Revokes key_id m.trust_store) revoked_it (revoke-Revokes key_id m.trust_store) in
    rw rows_eq
      (AllAgree-revoke m.trust_store store key_id (some now) m.rows revokes.1 revokes.2 linked)
