-- ===== src/Security/Tests.antt =====
-- security/src/relay-token.ts: a token that is issued and verified, with a small signature scheme
-- in place of the one of Node.
use surfgate.Common.{◌≡◌, refl, some, List, [], ◌∷◌, ok, all, ℕ_discrete}
use surfgate.Contracts.Text.{Text, text_eq, codes, Text-discrete}
use surfgate.Security.Claims.{Claims, claims_json}
use surfgate.Security.Token.{
  Crypto, CryptoLaws, SigningKey, IssueInput, Issued, claims_of, parts_of, issue, verify, key_of,
}
use surfgate.Security.Format.{token_of}
use surfgate.Security.Issued.{answer_at, verify-issue}
use surfgate.Security.Verified.{Authentic, verify-Authentic}
use surfgate.Contracts.Ids.{is_tenant_id, is_session_id}

abbrev input : IssueInput
input = record {
  tenant_id = codes "ten_01ARZ3NDEKTSV4RRFFQ69G5FAV";
  session_id = codes "ses_01ARZ3NDEKTSV4RRFFQ69G5FAV";
  ttl_seconds = 60;
}

abbrev token_id : Text
token_id = codes "rtj_0123456789abcdef012345"

abbrev pub claims : Claims
claims = claims_of input token_id 100000

abbrev seal : Text
seal = codes "0123456789abcdef0123456789abcdef0123456789a"

-- Only the claims above are written.
abbrev scheme : Crypto Text
scheme = record {
  signature = λ k t. seal;
  encode_bytes = λ b. b;
  decode_bytes = λ t. t;
  pack = λ j. codes "claims";
  unpack = λ t. some (claims_json claims);
}

scheme-CryptoLaws : CryptoLaws scheme
unfolding all
scheme-CryptoLaws = record {
  encode_words = λ k t. refl;
  encode_length = λ k t. refl;
  decode_encode = λ k t. refl;
  pack_words = λ j. record { words = refl; some_words = refl };
}

abbrev signing_key : SigningKey Text
signing_key = record { key = codes "secret"; key_id = codes "key-1" }

abbrev rotated : List (SigningKey Text)
rotated = record { key = codes "newer"; key_id = codes "key-2" } ∷ signing_key ∷ []

abbrev pub issued : Issued
issued = record { token = token_of (parts_of scheme signing_key claims); expires_at = 160000 }

issuing : issue scheme signing_key input token_id 100000 ≡ ok issued
unfolding issue is_tenant_id is_session_id
issuing = refl

known_key : key_of signing_key.key_id rotated ≡ some signing_key.key
unfolding key_of Text-discrete ℕ_discrete
known_key = refl

verify-issue_example : verify scheme rotated issued.token 130000 ≡ answer_at claims 130000
verify-issue_example =
    verify-issue scheme scheme-CryptoLaws signing_key rotated input token_id 100000 130000 issued
      refl issuing known_key

verify-Authentic_example : Authentic scheme rotated issued.token 130000 claims
verify-Authentic_example =
    verify-Authentic scheme rotated issued.token 130000 claims verify-issue_example
