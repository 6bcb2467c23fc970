-- ===== src/Platform.antt =====
-- What the program calls and does not implement: Python's json and hashlib, base64, and the Ed25519
-- operations of the cryptography package. The names of canonical.py and crypto.py stand over them.
use governed_autonomy_substr.Base.{
  Bool, List, Option, Outcome, String, false, none, ok, some, true, ℕ, ◌≡◌,
}
use governed_autonomy_substr.Value.{Value, text}

-- A public key, by its raw bytes in the form that `b64encode` gives.
abbrev pub PublicKey : Type 0
PublicKey = String

-- A byte sequence that is UTF-8 stands as the text that it encodes.
pub record Platform : Type 0 where
  -- `json.dumps(value, sort_keys=True, separators=(",", ":"), ensure_ascii=False)`.
  pub json_dumps : Value → String
  -- `json.loads`, or `none` where it raises JSONDecodeError.
  pub json_loads : String → Option Value
  -- `hashlib.sha256(payload).hexdigest()`.
  pub sha256 : String → String
  -- `base64.urlsafe_b64decode` of the padded text, or `none` where it raises ValueError.
  pub urlsafe_b64decode : String → Option (List ℕ)
  -- `Ed25519PublicKey.verify`: whether it returns, and does not raise InvalidSignature.
  pub ed25519_verify : PublicKey → List ℕ → String → Bool
  -- `Ed25519PublicKey.from_public_bytes(b64decode(encoded))`, or `none` where it raises ValueError.
  pub load_public_key : String → Option PublicKey
  -- `repr(value)`, which is `str(value)` for all but strings.
  pub repr : Value → String

module _ ⦃p : Platform⦄ where
  -- `canonical_json`, as the text whose UTF-8 bytes it returns.
  abbrev pub canonical_json : Value → String
  canonical_json value = p.json_dumps value

  -- `hashlib.sha256(canonical_json(value)).hexdigest()`, the digest that the source takes everywhere.
  abbrev pub digest : Value → String
  digest value = p.sha256 (canonical_json value)

  unfoldable pub verify_signature : PublicKey → String → String → Bool
  verify_signature public_key payload signature = elim (p.urlsafe_b64decode signature) [
    | none ↦ false
    | some raw ↦ p.ed25519_verify public_key raw payload
  ]

  -- `str(value)`.
  abbrev pub str : Value → String
  str (text s) = s
  str v = p.repr v

-- The signer boundary: a key's name and its signing call, which may raise.
pub record Signer : Type 0 where
  pub key_id : String
  pub sign : String → Outcome String

-- What Ed25519 promises of a signer and its public key: what it signs verifies.
abbrev pub Signs : ⦃p : Platform⦄ → Signer → PublicKey → Type 0
Signs s key =
    (payload signature : String)
    → s.sign payload ≡ ok signature
    → verify_signature key payload signature ≡ true
