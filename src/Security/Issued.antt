-- ===== src/Security/Issued.antt =====
-- security/src/relay-token.ts: the tokens that `issue` gives out, verified.
use mathlib.Core.List.{reverse-reverse}
use surfgate.Common.{
  ℕ, ◌+◌, ◌/◌, ◌≡◌, refl, ap, subst, inl, inr, Bool, true, false, ==-iff, none, some, List, ◌++◌,
  leb, ltb, Result, ok, err, guard, arith, ◌>>◌, Bool-cases, &&-right, is_some, if◌then◌else◌,
}
use surfgate.Contracts.Text.{Text, text_eq, codes, strip_prefix, length_within}
use surfgate.Security.Format.{
  Parts, is_key_id, split_token, is_relay_token, signing_input, token_of, last_part_of,
  split_token-token_of,
}
use surfgate.Security.Claims.{
  Claims, is_relay_token_id, is_claims, claims_json, parse_claims-claims_json,
}
use surfgate.Security.Token.{
  Crypto, CryptoLaws, TokenError, schema_refused, token_malformed, token_expired, SigningKey,
  IssueInput, Issued, key_of, claims_of, parts_of, issue, read_claims, verify, ReadsBack, signed_by,
  clock_skew_seconds,
}

three_guards :
    {A : Type 0} (a b c : Bool) (r q : A) (e : TokenError)
    → (guard a e >> (guard b e >> (guard c e >> ok r))) ≡ ok q
    → (a ≡ true) × (b ≡ true) × (c ≡ true) × (r ≡ q)
three_guards true true true r q e h = (refl, refl, refl, ground arith)
three_guards false b c r q e h = cc
three_guards true false c r q e h = cc
three_guards true true false r q e h = cc

-- What the service says of a token that it has issued, at another time.
abbrev pub answer_at : Claims → ℕ → Result TokenError Claims
answer_at c later =
    if leb c.issued_at (later / 1000 + clock_skew_seconds)
    then (if ltb (later / 1000) c.expires_at then ok c else err token_expired)
    else err token_malformed

timed :
    (a b : Bool) (c : Claims)
    → (guard a token_malformed >> (guard b token_expired >> ok c))
      ≡ (if a then (if b then ok c else err token_expired) else err token_malformed)
timed true true c = refl
timed true false c = refl
timed false b c = refl

module _ {Key : Type 0} (crypto : Crypto Key) (laws : CryptoLaws crypto) where
  module _ (k : SigningKey Key) (c : Claims) where
    bad_key : is_key_id k.key_id ≡ false → split_token (token_of (parts_of crypto k c)) ≡ none
    unfolding split_token strip_prefix
    bad_key h =
        let p = parts_of crypto k c in
        rw
          (
            last_part_of (signing_input p.key_id p.payload) p.signature (laws.encode_words k.key _),
            laws.encode_length k.key _,
            last_part_of (codes "sgrt.v1." ++ p.key_id) p.payload
                (laws.pack_words (claims_json c)).words,
            (laws.pack_words (claims_json c)).some_words,
            reverse-reverse (codes "sgrt.v1." ++ p.key_id),
            h,
          )
          refl

    good_key : is_relay_token (token_of (parts_of crypto k c)) ≡ true → is_key_id k.key_id ≡ true
    unfolding is_relay_token
    good_key h = elim (Bool-cases (is_key_id k.key_id)) [
      | inl e ↦ e
      | inr e ↦ absurd (
          cc (
            &&-right (length_within 64 4096 (token_of (parts_of crypto k c)))
                (is_some (split_token (token_of (parts_of crypto k c)))) h,
            ap (λ o. is_some o) (bad_key e),
          ))
    ]

    issued_parts :
        is_relay_token (token_of (parts_of crypto k c)) ≡ true
        → split_token (token_of (parts_of crypto k c)) ≡ some (parts_of crypto k c)
    issued_parts h =
        split_token-token_of (parts_of crypto k c) (good_key h) (laws.pack_words (claims_json c))
          (laws.encode_words k.key _) (laws.encode_length k.key _)

    read_issued :
        ReadsBack crypto c
        → is_claims c ≡ true
        → read_claims crypto (crypto.pack (claims_json c)) ≡ ok c
    unfolding read_claims
    read_issued back h = rw (back, parse_claims-claims_json c h) refl

  verified :
      (keys : List (SigningKey Key)) (token : Text) (later : ℕ) (p : Parts) (key : Key) (c : Claims)
      → split_token token ≡ some p
      → key_of p.key_id keys ≡ some key
      → signed_by crypto key p ≡ true
      → read_claims crypto p.payload ≡ ok c
      → verify crypto keys token later ≡ answer_at c later
  unfolding verify
  verified keys token later p key c split known signed read =
      rw (split, known, signed, read) (timed _ _ c)

  -- A token that was issued, whose claims JSON writes and reads back, is verified to its claims by
  -- every service whose keys have the signing key under its identifier: while the lifetime runs it answers the claims, afterwards
  -- that the token has expired, and more than five seconds before the issue that it is malformed.
  pub verify-issue :
      (k : SigningKey Key) (keys : List (SigningKey Key)) (i : IssueInput) (token_id : Text)
      (now later : ℕ) (issued : Issued)
      → ReadsBack crypto (claims_of i token_id now)
      → issue crypto k i token_id now ≡ ok issued
      → key_of k.key_id keys ≡ some k.key
      → verify crypto keys issued.token later ≡ answer_at (claims_of i token_id now) later
  unfolding issue
  verify-issue k keys i token_id now later issued back h known =
      let c = claims_of i token_id now in
      let (id, valid, shaped, same) =
        three_guards (is_relay_token_id token_id) (is_claims c)
          (is_relay_token (token_of (parts_of crypto k c))) _ issued schema_refused h in
      let p = parts_of crypto k c in
      let signed : signed_by crypto k.key p ≡ true =
        (==-iff _ _).1 (laws.decode_encode k.key (signing_input p.key_id p.payload)) in
      subst (λ x. verify crypto keys x.token later ≡ answer_at c later) same
        (verified keys (token_of p) later p k.key c (issued_parts k c shaped) known signed
          (read_issued k c back valid))
