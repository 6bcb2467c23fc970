-- ===== src/Examples/World.antt =====
-- A small concrete platform, a signer that the platform verifies, and the data of the tests.
use Prim.Native.Char.{code}
use governed_autonomy_substr.Base.{
  String, String-discrete, [], ap, arith, eq_text, if◌then◌else◌, none, ok, refl, some, sym, ℕ, ◌∷◌,
  ◌≡◌, ◌⧺◌,
}
use governed_autonomy_substr.Platform.{Platform, Signer, Signs, verify_signature}
use governed_autonomy_substr.Replay.{events}
use governed_autonomy_substr.Replay.Tamper.{FrameJson}
use governed_autonomy_substr.Value.{Value, dict, end, field, object, text}

-- A text pair from which both parts can be read back.
unfoldable pub pair : String → String → String
pair String.[] t = String.◌∷◌ "0" t
pair (String.◌∷◌ c s) t = String.◌∷◌ "1" (String.◌∷◌ c (pair s t))

-- Objects of the shape of a frame's body keep their two strings and third field; others keep nothing.
unfoldable pub dump : Value → String
dump (object (field i (text a) (field j (text b) (field k v end)))) = pair a (pair b (dump v))
dump v = ""

-- Every line is the first frame of a log, with an empty event.
abbrev pub first_frame : Value
first_frame = dict (
    ("frame_id", text "f")
    ∷ ("previous_hash", text "")
    ∷ ("event", dict [])
    ∷ ("frame_hash", text ("#" ⧺ pair "f" (pair "" "")))
    ∷ [])

-- The signature "signed" under the key "key" is the only one that verifies.
instance abbrev pub toy : Platform
toy = record {
  json_dumps = dump;
  json_loads = λ line. some first_frame;
  sha256 = λ s. "#" ⧺ s;
  urlsafe_b64decode = λ s. if eq_text s "signed" then some [] else none;
  ed25519_verify = λ key raw payload. eq_text key "key";
  load_public_key = λ s. some s;
  repr = λ v. "value";
}

abbrev pub signer : Signer
signer = record { key_id = "issuer"; sign = λ payload. ok "signed" }

ok-injective : {s t : String} → ok s ≡ ok t → s ≡ t
ok-injective e = cc

pub signer-Signs : Signs signer "key"
unfolding verify_signature String-discrete
signer-Signs payload signature e = rw (sym (ok-injective e)) refl

abbrev head_code : String → ℕ
head_code String.[] = 0
head_code (String.◌∷◌ c s) = code c

pair-injective : (a b s t : String) → pair a s ≡ pair b t → (a ≡ b) × (s ≡ t)
unfolding pair
pair-injective String.[] String.[] s t e = (refl, cc)
pair-injective String.[] (String.◌∷◌ d b) s t e =
    let codes : code "0" ≡ code "1" = ap head_code e in absurd (ground arith)
pair-injective (String.◌∷◌ c a) String.[] s t e =
    let codes : code "1" ≡ code "0" = ap head_code e in absurd (ground arith)
pair-injective (String.◌∷◌ c a) (String.◌∷◌ d b) s t e =
    let same : pair a s ≡ pair b t = cc in
    let (tails, rests) = pair-injective a b s t same in (cc, rests)

pub toy-FrameJson : FrameJson
unfolding dump
toy-FrameJson i h i' h' e e' same =
    let (ids, rest) = pair-injective i i' _ _ same in
    let (hashes, events) = pair-injective h h' _ _ rest in (ids, hashes, events)
