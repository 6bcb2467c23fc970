-- ===== src/Mesh/Sources.antt =====
-- `GovernanceSourceRegistry` of mesh.py, over keys that are already decoded. Its file is left out.
use governed_autonomy_substr.Base.{
  Dict, List, Option, Outcome, String, contains, if◌then◌else◌, insert, is_blank, is_in, lookup,
  mesh_error, none, not, ok, raise_if, some, ◌>>◌, ◌∷◌, ◌⧺◌,
}
use governed_autonomy_substr.Platform.{PublicKey}
use governed_autonomy_substr.Trust.{TrustStore, discard, resolve}
use governed_autonomy_substr.Value.{Value}

pub record SourceRegistry : Type 0 where
  pub backing : Option TrustStore
  pub source_keys : Dict PublicKey
  pub source_metadata : Dict (Dict Value)
  pub revoked_sources : List String

unfoldable pub register_source :
    String → PublicKey → Dict Value → SourceRegistry → Outcome SourceRegistry
register_source source_id public_key metadata r = do
  raise_if (is_blank source_id) (mesh_error "source_id must be a non-empty string")
  ok (record r {
    source_keys = insert source_id public_key r.source_keys;
    source_metadata = insert source_id metadata r.source_metadata;
    revoked_sources = discard source_id r.revoked_sources;
  })

unfoldable pub revoke_source : String → SourceRegistry → Outcome SourceRegistry
revoke_source source_id r = do
  raise_if (not (contains source_id r.source_keys))
      (mesh_error ("unknown governance source: " ⧺ source_id))
  ok (record r { revoked_sources = source_id ∷ r.revoked_sources })

-- The trust store's key goes before the registry's own.
unfoldable pub resolve_source : String → SourceRegistry → Option PublicKey
resolve_source source_id r = if is_in source_id r.revoked_sources then none else elim r.backing [
  | none ↦ lookup source_id r.source_keys
  | some store ↦ elim (resolve source_id store) [
    | none ↦ lookup source_id r.source_keys
    | some key ↦ some key
  ]
]
