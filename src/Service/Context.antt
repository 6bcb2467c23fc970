-- ===== src/Service/Context.antt =====
-- The runtime identity wins over the caller in the context of what is authorized.
use governed_autonomy_substr.Base.{
  Bool, Dict, List, Option, Option-cases, String, String-discrete, [], arith, contains, eq_text,
  false, get_or, if◌then◌else◌, inl, inr, keep, lookup, lookup-insert, lookup-insert_self, none,
  not, refl, some, true, ◌++◌, ◌∙◌, ◌∷◌, ◌≡◌,
}
use governed_autonomy_substr.Service.Governed.{overwrite, update}
use governed_autonomy_substr.Service.Identity.{
  RuntimeIdentity, identity_context, put_if, put_text, put_texts,
}
use governed_autonomy_substr.Value.{Value, text, texts}

lookup-append :
    (k : String) (d e : Dict Value)
    → lookup k (d ++ e) ≡ elim (lookup k d) [ none ↦ lookup k e | some v ↦ some v ]
unfolding lookup
lookup-append k [] e = refl
lookup-append k ((j, v) ∷ d) e = ground (arith, lookup-append k d e)

lookup-overwrite :
    (k : String) (e d : Dict Value)
    → lookup k (overwrite e d) ≡ elim (lookup k d) [ none ↦ none | some v ↦ some (get_or k v e) ]
unfolding lookup overwrite
lookup-overwrite k e [] = refl
lookup-overwrite k e ((j, v) ∷ d) = elim (String-discrete k j) [
  | yes same ↦ rw same (ground arith)
  | no other ↦ ground (arith, lookup-overwrite k e d)
]

lookup-keep :
    (k : String) (e d : Dict Value)
    → lookup k (keep (λ (x : String × Value). not (contains x.0 d)) e)
      ≡ (if contains k d then none else lookup k e)
unfolding lookup
lookup-keep k [] d = ground arith
lookup-keep k ((j, v) ∷ e) d = elim (String-discrete k j) [
  | yes same ↦ rw same (let rest = lookup-keep j e d in ground arith)
  | no other ↦ ground (arith, lookup-keep k e d)
]

pub lookup-update :
    (k : String) (e d : Dict Value)
    → lookup k (update e d) ≡ elim (lookup k e) [ none ↦ lookup k d | some v ↦ some v ]
unfolding update
lookup-update k e d =
    let joined =
      lookup-append k (overwrite e d) (keep (λ (x : String × Value). not (contains x.0 d)) e) in
    let old = lookup-overwrite k e d in
    let new = lookup-keep k e d in
    elim (Option-cases (lookup k d)) [
      | inl absent ↦ ground arith
      | inr (v, known) ↦ elim (Option-cases (lookup k e)) [
        | inl absent' ↦ ground arith
        | inr (w, known') ↦ ground arith
      ]
    ]

-- What an entry under another key leaves.
put_text-other :
    (k key : String) (o : Option String) (d : Dict Value)
    → eq_text k key ≡ false
    → lookup k (put_text key o d) ≡ lookup k d
put_text-other k key none d differs = refl
put_text-other k key (some s) d differs = ground (arith, lookup-insert key k (text s) d)

put_texts-other :
    (k key : String) (xs : List String) (d : Dict Value)
    → eq_text k key ≡ false
    → lookup k (put_texts key xs d) ≡ lookup k d
put_texts-other k key [] d differs = refl
put_texts-other k key (x ∷ xs) d differs = ground (arith, lookup-insert key k (texts (x ∷ xs)) d)

put_if-other :
    (k key : String) (b : Bool) (v : Value) (d : Dict Value)
    → eq_text k key ≡ false
    → lookup k (put_if b key v d) ≡ lookup k d
put_if-other k key false v d differs = refl
put_if-other k key true v d differs = ground (arith, lookup-insert key k v d)

-- The keys that stand in the way of no claim of the tenant, the actor and the environment.
abbrev IsApart : String → Type 0
IsApart k =
    (eq_text k "request_id" ≡ false)
    × (eq_text k "source" ≡ false)
    × (eq_text k "principal_id" ≡ false)
    × (eq_text k "roles" ≡ false)
    × (eq_text k "subject" ≡ false)
    × (eq_text k "name" ≡ false)
    × (eq_text k "email" ≡ false)
    × (eq_text k "groups" ≡ false)
    × (eq_text k "issuer" ≡ false)
    × (eq_text k "identity_source" ≡ false)
    × (eq_text k "service_principal" ≡ false)
    × (eq_text k "identity_type" ≡ false)

-- The first three entries of an identity's context.
abbrev first_claims : RuntimeIdentity → Dict Value
first_claims i =
    put_text "environment" (some i.environment)
      (put_text "actor_id" i.actor_id (put_text "tenant_id" i.tenant_id i.scope))

identity_context-first :
    (k : String) (i : RuntimeIdentity)
    → IsApart k
    → lookup k (identity_context i) ≡ lookup k (first_claims i)
unfolding identity_context
identity_context-first k i (req, src, pri, rol, sub, nam, ema, gro, iss, ids, ser, typ) =
    put_if-other k "identity_type" _ _ _ typ
    ∙ put_if-other k "service_principal" _ _ _ ser
    ∙ put_text-other k "identity_source" i.identity_source _ ids
    ∙ put_text-other k "issuer" i.issuer _ iss
    ∙ put_texts-other k "groups" i.groups _ gro
    ∙ put_text-other k "email" i.email _ ema
    ∙ put_text-other k "name" i.name _ nam
    ∙ put_text-other k "subject" i.subject _ sub
    ∙ put_texts-other k "roles" i.roles _ rol
    ∙ put_text-other k "principal_id" i.principal_id _ pri
    ∙ put_text-other k "source" i.source _ src
    ∙ put_text-other k "request_id" i.request_id _ req

pub identity_context-tenant :
    (i : RuntimeIdentity) (tenant : String)
    → i.tenant_id ≡ some tenant
    → lookup "tenant_id" (identity_context i) ≡ some (text tenant)
unfolding String-discrete
identity_context-tenant i tenant has_tenant =
    identity_context-first "tenant_id" i
      (refl, refl, refl, refl, refl, refl, refl, refl, refl, refl, refl, refl)
    ∙ put_text-other "tenant_id" "environment" (some i.environment) _ refl
    ∙ put_text-other "tenant_id" "actor_id" i.actor_id (put_text "tenant_id" i.tenant_id i.scope)
        refl
    ∙ rw has_tenant (lookup-insert_self "tenant_id" (text tenant) i.scope)

pub identity_context-actor :
    (i : RuntimeIdentity) (actor : String)
    → i.actor_id ≡ some actor
    → lookup "actor_id" (identity_context i) ≡ some (text actor)
unfolding String-discrete
identity_context-actor i actor has_actor =
    identity_context-first "actor_id" i
      (refl, refl, refl, refl, refl, refl, refl, refl, refl, refl, refl, refl)
    ∙ put_text-other "actor_id" "environment" (some i.environment)
        (put_text "actor_id" i.actor_id (put_text "tenant_id" i.tenant_id i.scope)) refl
    ∙ rw has_actor (lookup-insert_self "actor_id" (text actor) _)

pub identity_context-environment :
    (i : RuntimeIdentity) → lookup "environment" (identity_context i) ≡ some (text i.environment)
unfolding String-discrete
identity_context-environment i =
    identity_context-first "environment" i
      (refl, refl, refl, refl, refl, refl, refl, refl, refl, refl, refl, refl)
    ∙ lookup-insert_self "environment" (text i.environment) _
