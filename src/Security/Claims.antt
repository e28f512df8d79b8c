-- ===== src/Security/Claims.antt =====
-- security/src/relay-token.ts: the claims of a token and their schema.
use surfgate.Common.{
  ℕ, ◌+◌, ◌≡◌, refl, subst, inl, inr, Bool-cases, arith, Bool, true, false, ◌&&◌, ◌==◌, Option,
  none, some, List, [], ◌∷◌, leb, nat_eq, length, all, includes, if◌then◌else◌, passes, ℕ_discrete,
}
use surfgate.Common.Maybe.{◌>>=◌, ◌>>◌, accept}
use surfgate.Contracts.Text.{Text, text_eq, Text-discrete, codes, strip_prefix, is_word}
use surfgate.Contracts.Ids.{is_tenant_id, is_session_id}
use surfgate.Task.Record.{max_safe_integer}

-- A value that `JSON.parse` answers. Numbers that are no natural numbers are kept apart; the keys
-- of an object differ.
mutual
  pub data Json : Type 0 where
    json_null json_other_number : Json
    json_bool : (b : Bool) → Json
    json_number : (n : ℕ) → Json
    json_string : (t : Text) → Json
    json_array : (items : Items) → Json
    json_object : (fields : Fields) → Json

  pub data Items : Type 0 where
    no_items : Items
    item : (v : Json) (rest : Items) → Items

  pub data Fields : Type 0 where
    no_fields : Fields
    field : (key : Text) (v : Json) (rest : Fields) → Fields

unfoldable pub field_of : Text → Fields → Option Json
field_of k no_fields = none
field_of k (field key v rest) = let found = field_of k rest in if key == k then some v else found

abbrev pub string_of : Json → Option Text
string_of (json_string t) = some t
string_of _ = none

abbrev pub number_of : Json → Option ℕ
number_of (json_number n) = some n
number_of _ = none

-- `/^rtj_[A-Za-z0-9_-]{22}$/u`
unfoldable pub is_relay_token_id : Text → Bool
unfolding strip_prefix all
is_relay_token_id t = elim (strip_prefix (codes "rtj_") t) [
  | none ↦ false
  | some rest ↦ nat_eq (length rest) 22 && all (λ c. is_word c) rest
]

-- The claims but for the three literals.
pub record Claims : Type 0 where
  pub tenant_id : Text
  pub session_id : Text
  pub token_id : Text
  pub issued_at : ℕ
  pub expires_at : ℕ

abbrev pub max_token_ttl_seconds : ℕ
max_token_ttl_seconds = 300

-- The schema of the fields, and its `superRefine`.
abbrev pub claims_checks : Claims → List Bool
claims_checks c =
    is_tenant_id c.tenant_id
    ∷ is_session_id c.session_id
    ∷ is_relay_token_id c.token_id
    ∷ leb c.issued_at max_safe_integer
    ∷ leb 1 c.expires_at
    ∷ leb c.expires_at max_safe_integer
    ∷ leb (c.issued_at + 1) c.expires_at
    ∷ leb c.expires_at (c.issued_at + max_token_ttl_seconds)
    ∷ []

unfoldable pub is_claims : Claims → Bool
unfolding passes
is_claims c = passes (claims_checks c)

abbrev pub claim_names : List Text
claim_names =
    codes "version"
    ∷ codes "issuer"
    ∷ codes "audience"
    ∷ codes "tenantID"
    ∷ codes "sessionID"
    ∷ codes "tokenID"
    ∷ codes "issuedAt"
    ∷ codes "expiresAt"
    ∷ []

-- `.strict()`
unfoldable pub only_claims : Fields → Bool
unfolding includes
only_claims no_fields = true
only_claims (field key v rest) = includes claim_names key && only_claims rest

-- `z.literal`
abbrev pub is_text : Text → Json → Bool
is_text t (json_string u) = u == t
is_text t _ = false

abbrev pub is_number : ℕ → Json → Bool
is_number n (json_number m) = nat_eq m n
is_number n _ = false

unfoldable pub read_fields : Fields → Option Claims
unfolding field_of only_claims
read_fields fs = do
  version ← field_of (codes "version") fs
  accept (is_number 1 version)
  issuer ← field_of (codes "issuer") fs
  accept (is_text (codes "surfgate-control-plane") issuer)
  audience ← field_of (codes "audience") fs
  accept (is_text (codes "surfgate-relay") audience)
  tenant ← field_of (codes "tenantID") fs
  tenant ← string_of tenant
  session ← field_of (codes "sessionID") fs
  session ← string_of session
  token ← field_of (codes "tokenID") fs
  token ← string_of token
  issued ← field_of (codes "issuedAt") fs
  issued ← number_of issued
  expires ← field_of (codes "expiresAt") fs
  expires ← number_of expires
  accept (only_claims fs)
  some (record {
    tenant_id = tenant;
    session_id = session;
    token_id = token;
    issued_at = issued;
    expires_at = expires;
  })

unfoldable pub valid_claims : Option Claims → Option Claims
unfolding is_claims
valid_claims none = none
valid_claims (some c) = if is_claims c then some c else none

-- `RelayTokenClaimsSchema.safeParse`
unfoldable pub parse_claims : Json → Option Claims
unfolding read_fields valid_claims
parse_claims (json_object fs) = valid_claims (read_fields fs)
parse_claims _ = none

-- What `JSON.stringify` is given.
abbrev pub claims_json : Claims → Json
claims_json c = json_object (
    field (codes "version") (json_number 1) (
      field (codes "issuer") (json_string (codes "surfgate-control-plane")) (
        field (codes "audience") (json_string (codes "surfgate-relay")) (
          field (codes "tenantID") (json_string c.tenant_id) (
            field (codes "sessionID") (json_string c.session_id) (
              field (codes "tokenID") (json_string c.token_id) (
                field (codes "issuedAt") (json_number c.issued_at)
                  (field (codes "expiresAt") (json_number c.expires_at) no_fields))))))))

pub parse_claims-claims_json :
    (c : Claims) → is_claims c ≡ true → parse_claims (claims_json c) ≡ some c
unfolding parse_claims read_fields valid_claims field_of only_claims includes Text-discrete
    ℕ_discrete
parse_claims-claims_json c h = rw h refl

valid_claims_only : (o : Option Claims) (c : Claims) → valid_claims o ≡ some c → is_claims c ≡ true
unfolding valid_claims
valid_claims_only none c h = cc
valid_claims_only (some d) c h = elim (Bool-cases (is_claims d)) [
  | inl e ↦ let same : d ≡ c = ground (arith, e) in subst (λ x. is_claims x ≡ true) same e
  | inr e ↦ absurd (ground (arith, e))
]

-- Claims that the schema lets through satisfy its tests.
pub parse_claims-valid : (j : Json) (c : Claims) → parse_claims j ≡ some c → is_claims c ≡ true
unfolding parse_claims
parse_claims-valid (json_object fs) c h = valid_claims_only (read_fields fs) c h
parse_claims-valid json_null c h = cc
parse_claims-valid json_other_number c h = cc
parse_claims-valid (json_bool b) c h = cc
parse_claims-valid (json_number n) c h = cc
parse_claims-valid (json_string t) c h = cc
parse_claims-valid (json_array xs) c h = cc
