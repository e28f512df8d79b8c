-- ===== src/Security/Verified.antt =====
-- security/src/relay-token.ts: what a token that `verify` accepts has shown.
use surfgate.Common.{
  ℕ, ◌+◌, ◌/◌, ◌≤◌, ◌<◌, ◌≡◌, refl, subst, true, Option, none, some, List, leb, ltb, leb→le, ltb→lt,
  Result, ok, arith, ◌>>=◌, passes-AllTrue,
}
use surfgate.Common.Results.{bind-ok, guard-ok}
use surfgate.Contracts.Text.{Text, text_eq}
use surfgate.Security.Format.{Parts, split_token}
use surfgate.Security.Claims.{
  Json, Claims, is_claims, claims_checks, parse_claims, parse_claims-valid, max_token_ttl_seconds,
}
use surfgate.Security.Token.{
  Crypto, TokenError, SigningKey, token_malformed, token_expired, invalid_signature, key_of,
  required, refusal, read_claims, signed_by, verify, clock_skew_seconds,
}

pub record Authentic {Key : Type 0} (crypto : Crypto Key) (keys : List (SigningKey Key))
    (token : Text) (now : ℕ) (c : Claims) : Type 0 where
  pub parts : Parts
  pub key : Key
  pub shaped : split_token token ≡ some parts
  pub known : key_of parts.key_id keys ≡ some key
  pub signed : signed_by crypto key parts ≡ true
  pub payload : Json
  pub unpacked : crypto.unpack parts.payload ≡ some payload
  pub claimed : parse_claims payload ≡ some c
  pub begun : c.issued_at ≤ now / 1000 + clock_skew_seconds
  pub running : now / 1000 < c.expires_at
  pub short_lived :
      (c.issued_at < c.expires_at) × (c.expires_at ≤ c.issued_at + max_token_ttl_seconds)

required-ok :
    {A B : Type 0} (o : Option A) (e : TokenError) (f : A → Result TokenError B) (b : B)
    → (required o e >>= f) ≡ ok b
    → (a : A) × (o ≡ some a) × (f a ≡ ok b)
required-ok none e f b h = cc
required-ok (some a) e f b h = (a, refl, h)

required-some :
    {A : Type 0} (o : Option A) (e : TokenError) (a : A) → required o e ≡ ok a → o ≡ some a
required-some none e a h = cc
required-some (some b) e a h = ground arith

module _ {Key : Type 0} (crypto : Crypto Key) where
  lifetime :
      (c : Claims)
      → is_claims c ≡ true
      → (c.issued_at < c.expires_at) × (c.expires_at ≤ c.issued_at + max_token_ttl_seconds)
  unfolding is_claims
  lifetime c h =
      let checks = passes-AllTrue (claims_checks c) h in
      (ground (arith, checks), ground (arith, checks))

  -- A token is accepted only if one of the service's keys has signed it, its payload holds the
  -- claims that are answered, it was issued at most five seconds ahead of now, it has not
  -- expired, and it lives for at most five minutes.
  pub verify-Authentic :
      (keys : List (SigningKey Key)) (token : Text) (now : ℕ) (c : Claims)
      → verify crypto keys token now ≡ ok c
      → Authentic crypto keys token now c
  unfolding verify read_claims
  verify-Authentic keys token now c h =
      let (p, e1, h1) = required-ok (split_token token) token_malformed _ c h in
      let (key, e2, h2) = required-ok (key_of p.key_id keys) invalid_signature _ c h1 in
      let (e3, h3) = guard-ok (signed_by crypto key p) invalid_signature _ c h2 in
      let (d, e4, h4) = bind-ok (read_claims crypto p.payload) _ c h3 in
      let (e5, h5) =
        guard-ok (leb d.issued_at (now / 1000 + clock_skew_seconds)) token_malformed _ c h4 in
      let (e6, h6) = guard-ok (ltb (now / 1000) d.expires_at) token_expired _ c h5 in
      let (j, e7, h7) = required-ok (crypto.unpack p.payload) token_malformed _ d e4 in
      let same : d ≡ c = ground arith in
      subst (Authentic crypto keys token now) same (record {
        parts = p;
        key = key;
        shaped = e1;
        known = e2;
        signed = e3;
        payload = j;
        unpacked = e7;
        claimed = required-some (parse_claims j) (refusal j) d h7;
        begun = leb→le _ _ e5;
        running = ltb→lt _ _ e6;
        short_lived =
            lifetime d (parse_claims-valid j d (required-some (parse_claims j) (refusal j) d h7));
      })
