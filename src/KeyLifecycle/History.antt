-- ===== src/KeyLifecycle/History.antt =====
-- Any history of calls on the key lifecycle manager; a call that raises changes nothing.
use governed_autonomy_substr.Base.{
  List, Option, Option-cases, Outcome, String, String-discrete, [], arith, eq_text, err,
  if◌then◌else◌, inl, inr, none, ok, refl, some, ℕ, ◌∷◌, ◌≡◌,
}
use governed_autonomy_substr.KeyLifecycle.{
  KeyRecord, KeyStatus, Manager, register, revoke_key, revoked_key, rotate, rotated, row,
  set_status,
}
use governed_autonomy_substr.KeyLifecycle.Linked.{
  AllAgree-row, IsLinked, new_row, register-IsLinked, register-ok, revoke_key-IsLinked,
  revoke_key-ok, rotate-IsLinked, rotate-ok, row-append,
}
use governed_autonomy_substr.Platform.{PublicKey}
use governed_autonomy_substr.Trust.{resolve}

pub data Call : Type 0 where
  registers : String → String → PublicKey → ℕ → Call
  rotates : String → String → String → PublicKey → ℕ → Call
  revokes : String → ℕ → Call

abbrev pub second : Manager → Outcome (KeyRecord × Manager) → Manager
second m (ok r) = r.1
second m (err e) = m

abbrev pub after : Manager → Outcome Manager → Manager
after m (ok m') = m'
after m (err e) = m

unfoldable pub step : Call → Manager → Manager
step (registers key_id provider key now) m = second m (register key_id provider key now m)
step (rotates old new provider key now) m = second m (rotate old new provider key now m)
step (revokes key_id now) m = after m (revoke_key key_id now m)

unfoldable pub run : List Call → Manager → Manager
unfolding step
run [] m = m
run (c ∷ cs) m = run cs (step c m)

-- A property of the result of a call that may raise.
second-keeps :
    (P : Manager → Type 0) (m : Manager) (o : Outcome (KeyRecord × Manager))
    → P m
    → ((r : KeyRecord × Manager) → o ≡ ok r → P r.1)
    → P (second m o)
second-keeps P m (ok r) h k = k r refl
second-keeps P m (err e) h k = h

after-keeps :
    (P : Manager → Type 0) (m : Manager) (o : Outcome Manager)
    → P m
    → ((m' : Manager) → o ≡ ok m' → P m')
    → P (after m o)
after-keeps P m (ok m') h k = k m' refl
after-keeps P m (err e) h k = h

step-IsLinked : (c : Call) (m : Manager) → IsLinked m → IsLinked (step c m)
unfolding step
step-IsLinked (registers k q key now) m h =
    second-keeps IsLinked m (register k q key now m) h
      (λ r e. register-IsLinked k q key now m r h e)
step-IsLinked (rotates o n q key now) m h =
    second-keeps IsLinked m (rotate o n q key now m) h
      (λ r e. rotate-IsLinked o n q key now m r h e)
step-IsLinked (revokes k now) m h =
    after-keeps IsLinked m (revoke_key k now m) h (λ m' e. revoke_key-IsLinked k now m m' h e)

run-IsLinked : (cs : List Call) (m : Manager) → IsLinked m → IsLinked (run cs m)
unfolding run
run-IsLinked [] m h = h
run-IsLinked (c ∷ cs) m h = run-IsLinked cs (step c m) (step-IsLinked c m h)

-- The table says that a key is revoked.
abbrev pub HasRevoked : String → Manager → Type 0
HasRevoked key_id m = (r : KeyRecord) × (row key_id m.rows ≡ some r) × (r.status ≡ revoked_key)

row-set_status :
    (key_id other : String) (status : KeyStatus) (at : Option ℕ) (rs : List KeyRecord)
    (r : KeyRecord)
    → row other rs ≡ some r
    → row other (set_status key_id status at rs)
      ≡ some (if eq_text other key_id then record r { status = status; revoked_at = at } else r)
unfolding row set_status
row-set_status key_id other status at [] r e = absurd (ground arith)
row-set_status key_id other status at (x ∷ rs) r e =
    ground (arith, row-set_status key_id other status at rs r)

step-HasRevoked :
    (c : Call) (key_id : String) (m : Manager) → HasRevoked key_id m → HasRevoked key_id (step c m)
unfolding step
step-HasRevoked (registers k q key now) key_id m h =
    second-keeps (HasRevoked key_id) m (register k q key now m) h λ s e.
      let (absent, added, rows_eq) = register-ok k q key now m s e in
      (h.0, rw rows_eq (row-append key_id m.rows (new_row k q now ∷ []) h.0 h.1), h.2)
step-HasRevoked (rotates o n q key now) key_id m h =
    second-keeps (HasRevoked key_id) m (rotate o n q key now m) h λ s e.
      let (old, reg, found, live, made, store_eq, rows_eq) = rotate-ok o n q key now m s e in
      let (absent, added, new_rows) = register-ok n q key now m reg made in
      let still : row key_id reg.1.rows ≡ some h.0 =
        rw new_rows (row-append key_id m.rows (new_row n q now ∷ []) h.0 h.1) in
      let kept = row-set_status o key_id rotated old.revoked_at reg.1.rows h.0 still in
      elim (String-discrete key_id o) [
        | yes same ↦ absurd (ground arith)
        | no other ↦ (h.0, rw rows_eq (ground arith), h.2)
      ]
step-HasRevoked (revokes k now) key_id m h =
    after-keeps (HasRevoked key_id) m (revoke_key k now m) h λ m' e.
      let (present, done, rows_eq) = revoke_key-ok k now m m' e in
      let kept = row-set_status k key_id revoked_key (some now) m.rows h.0 h.1 in
      elim (String-discrete key_id k) [
        | yes same ↦ (
          record (h.0) { status = revoked_key; revoked_at = some now },
          rw rows_eq (ground arith),
          refl,
        )
        | no other ↦ (h.0, rw rows_eq (ground arith), h.2)
      ]

run-HasRevoked :
    (cs : List Call) (key_id : String) (m : Manager)
    → HasRevoked key_id m
    → HasRevoked key_id (run cs m)
unfolding run
run-HasRevoked [] key_id m h = h
run-HasRevoked (c ∷ cs) key_id m h =
    run-HasRevoked cs key_id (step c m) (step-HasRevoked c key_id m h)

-- In a manager whose table and trust store agree, a key that is revoked with success stays REVOKED and
-- resolves to nothing after any further calls on the manager: neither registering nor rotating restores it.
pub revoked_forever :
    (key_id : String) (now : ℕ) (m m' : Manager) (cs : List Call)
    → IsLinked m
    → revoke_key key_id now m ≡ ok m'
    → HasRevoked key_id (run cs m') × (resolve key_id (run cs m').trust_store ≡ none)
revoked_forever key_id now m m' cs linked e =
    let (present, done, rows_eq) = revoke_key-ok key_id now m m' e in
    let agree : IsLinked (run cs m') =
      run-IsLinked cs m' (revoke_key-IsLinked key_id now m m' linked e) in
    elim (Option-cases (row key_id m.rows)) [
      | inl absent ↦ absurd (ground arith)
      | inr (r, found) ↦
          let kept = row-set_status key_id key_id revoked_key (some now) m.rows r found in
          let first : HasRevoked key_id m' = (
            record r { status = revoked_key; revoked_at = some now },
            rw rows_eq (ground arith),
            refl,
          ) in
          let (q, qrow, qrev) = run-HasRevoked cs key_id m' first in
          let resolved =
            AllAgree-row (run cs m').trust_store key_id (run cs m').rows q agree qrow in
          ((q, qrow, qrev), ground arith)
    ]
