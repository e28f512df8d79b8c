-- ===== src/Security/Token.antt =====
-- security/src/relay-token.ts: `createRelayTokenService`.
use surfgate.Common.{
  ℕ, ◌+◌, ◌*◌, ◌/◌, ◌≡◌, Bool, true, ◌==◌, Option, none, some, List, [], ◌∷◌, leb, ltb, length, all,
  all_distinct, map, nat_eq, Result, ok, err, guard, if◌then◌else◌, ◌>>=◌, ◌>>◌,
}
use surfgate.Contracts.Text.{Text, text_eq, codes, is_word}
use surfgate.Security.Format.{Parts, IsPart, split_token, is_relay_token, signing_input, token_of}
use surfgate.Security.Claims.{
  Json, json_object, Claims, field_of, is_text, is_relay_token_id, is_claims, parse_claims,
  claims_json,
}

-- What the service calls of Node: signatures are lists of bytes.
pub record Crypto (Key : Type 0) : Type 0 where
  -- `createHmac('sha256', key).update(signingInput).digest()`
  pub signature : Key → Text → List ℕ
  -- `toString('base64url')` and `Buffer.from(…, 'base64url')`
  pub encode_bytes : List ℕ → Text
  pub decode_bytes : Text → List ℕ
  -- `Buffer.from(JSON.stringify(value), 'utf8').toString('base64url')`
  pub pack : Json → Text
  -- `JSON.parse(Buffer.from(payload, 'base64url').toString('utf8'))`, which may throw
  pub unpack : Text → Option Json

-- What the documentation says of them: a digest has 32 bytes, and base64url writes words and keeps
-- the bytes.
pub record CryptoLaws {Key : Type 0} (c : Crypto Key) : Type 0 where
  pub encode_words : (k : Key) (t : Text) → all is_word (c.encode_bytes (c.signature k t)) ≡ true
  pub encode_length :
      (k : Key) (t : Text) → nat_eq (length (c.encode_bytes (c.signature k t))) 43 ≡ true
  pub decode_encode :
      (k : Key) (t : Text) → c.decode_bytes (c.encode_bytes (c.signature k t)) ≡ c.signature k t
  pub pack_words : (j : Json) → IsPart (c.pack j)

pub data TokenError : Type 0 where
  token_malformed invalid_signature wrong_audience token_expired : TokenError
  schema_refused duplicate_key_id : TokenError

pub record SigningKey (Key : Type 0) : Type 0 where
  pub key : Key
  pub key_id : Text

pub record IssueInput : Type 0 where
  pub tenant_id : Text
  pub session_id : Text
  pub ttl_seconds : ℕ

pub record Issued : Type 0 where
  pub token : Text
  pub expires_at : ℕ

-- The claims that are signed at `now`, a number of milliseconds.
abbrev pub claims_of : IssueInput → Text → ℕ → Claims
claims_of i token_id now = record {
  tenant_id = i.tenant_id;
  session_id = i.session_id;
  token_id = token_id;
  issued_at = now / 1000;
  expires_at = now / 1000 + i.ttl_seconds;
}

abbrev pub clock_skew_seconds : ℕ
clock_skew_seconds = 5

-- The claim of another audience, as the error that tells of it.
abbrev audience_error : Option Json → TokenError
audience_error none = token_malformed
audience_error (some v) =
    if is_text (codes "surfgate-relay") v then token_malformed else wrong_audience

unfoldable pub refusal : Json → TokenError
unfolding field_of
refusal (json_object fs) = audience_error (field_of (codes "audience") fs)
refusal _ = token_malformed

abbrev pub required : {A : Type 0} → Option A → TokenError → Result TokenError A
required none e = err e
required (some a) e = ok a

module _ {Key : Type 0} where
  -- `keyMap`: the entries of the map, of which no two have the same identifier.
  unfoldable pub key_map :
      SigningKey Key → List (SigningKey Key) → Result TokenError (List (SigningKey Key))
  unfolding all_distinct
  key_map primary additional =
      if all_distinct (map (λ k. k.key_id) (primary ∷ additional))
      then ok (primary ∷ additional)
      else err duplicate_key_id

  -- `verificationKeys.get(keyID)`
  unfoldable pub key_of : Text → List (SigningKey Key) → Option Key
  key_of id [] = none
  key_of id (k ∷ ks) = let found = key_of id ks in if k.key_id == id then some k.key else found

module _ {Key : Type 0} (crypto : Crypto Key) where
  abbrev pub parts_of : SigningKey Key → Claims → Parts
  parts_of k c =
      let payload = crypto.pack (claims_json c) in
      record {
        key_id = k.key_id;
        payload = payload;
        signature = crypto.encode_bytes (crypto.signature k.key (signing_input k.key_id payload));
      }

  -- `issue`; the identifier is what `createTokenID` answers.
  unfoldable pub issue : SigningKey Key → IssueInput → Text → ℕ → Result TokenError Issued
  unfolding is_relay_token_id is_claims is_relay_token
  issue k i token_id now = do
    guard (is_relay_token_id token_id) schema_refused
    guard (is_claims (claims_of i token_id now)) schema_refused
    guard (is_relay_token (token_of (parts_of k (claims_of i token_id now)))) schema_refused
    ok (record {
      token = token_of (parts_of k (claims_of i token_id now));
      expires_at = (now / 1000 + i.ttl_seconds) * 1000;
    })

  -- The claims that a payload has to hold.
  unfoldable pub read_claims : Text → Result TokenError Claims
  unfolding parse_claims refusal
  read_claims payload = do
    untrusted ← required (crypto.unpack payload) token_malformed
    required (parse_claims untrusted) (refusal untrusted)

  abbrev pub signed_by : Key → Parts → Bool
  signed_by key p =
      crypto.decode_bytes p.signature == crypto.signature key (signing_input p.key_id p.payload)

  -- `verify`
  unfoldable pub verify : List (SigningKey Key) → Text → ℕ → Result TokenError Claims
  unfolding split_token key_of read_claims
  verify keys token now = do
    p ← required (split_token token) token_malformed
    key ← required (key_of p.key_id keys) invalid_signature
    guard (signed_by key p) invalid_signature
    c ← read_claims p.payload
    guard (leb c.issued_at (now / 1000 + clock_skew_seconds)) token_malformed
    guard (ltb (now / 1000) c.expires_at) token_expired
    ok c

  -- What JSON has written of the claims reads back.
  abbrev pub ReadsBack : Claims → Type 0
  ReadsBack c = crypto.unpack (crypto.pack (claims_json c)) ≡ some (claims_json c)
