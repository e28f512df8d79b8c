-- ===== src/Security/Format.antt =====
-- security/src/relay-token.ts: the shape of a token.
use mathlib.Core.List.{reverse, reverse_aux, reverse_aux-append, reverse_aux-eq, reverse-reverse}
use surfgate.Common.{
  ℕ, ◌≡◌, refl, ap, ◌∙◌, Bool, true, false, ◌&&◌, Option, none, some, [], ◌∷◌, ◌++◌, leb, nat_eq,
  length, all, arith, if◌then◌else◌, is_some, ◌||◌, &&-left, &&-right,
}
use surfgate.Common.Maybe.{◌>>=◌, ◌>>◌, accept}
use surfgate.Contracts.Text.{Text, codes, span, strip_prefix, length_within, is_word, is_alnum}

-- What `TOKEN_PATTERN` captures.
pub record Parts : Type 0 where
  pub key_id : Text
  pub payload : Text
  pub signature : Text

-- `[A-Za-z0-9][A-Za-z0-9._-]{0,63}`
unfoldable pub is_key_id : Text → Bool
unfolding all
is_key_id [] = false
is_key_id (c ∷ t) = is_alnum c && leb (length t) 63 && all (λ d. is_word d || nat_eq d b'.') t

abbrev pub after_dot : Text × Text → Option (Text × Text)
after_dot (u, []) = none
after_dot (u, c ∷ v) = if nat_eq c b'.' then some (reverse u, v) else none

-- The last run of word characters and what stands before the dot in front of it, backwards.
unfoldable pub last_part : Text → Option (Text × Text)
unfolding span
last_part t = after_dot (span is_word t)

-- `TOKEN_PATTERN.exec`. The payload and the signature have no dots, so the text is read from its
-- end, and there is only one way to match it.
unfoldable pub split_token : Text → Option Parts
unfolding last_part strip_prefix is_key_id
split_token t = do
  last ← last_part (reverse t)
  accept (nat_eq (length last.0) 43)
  middle ← last_part last.1
  accept (leb 1 (length middle.0))
  key_id ← strip_prefix (codes "sgrt.v1.") (reverse middle.1)
  accept (is_key_id key_id)
  some (record { key_id = key_id; payload = middle.0; signature = last.0 })

-- `RelayTokenSchema`
unfoldable pub is_relay_token : Text → Bool
unfolding split_token
is_relay_token t = length_within 64 4096 t && is_some (split_token t)

-- What is signed, and the token.
abbrev pub signing_input : Text → Text → Text
signing_input key_id payload = codes "sgrt.v1." ++ key_id ++ b'.' ∷ payload

abbrev pub token_of : Parts → Text
token_of p = signing_input p.key_id p.payload ++ b'.' ∷ p.signature

-- A part without dots.
pub record IsPart (t : Text) : Type 0 where
  pub words : all is_word t ≡ true
  pub some_words : leb 1 (length t) ≡ true

span_words :
    (u v : Text) (c : ℕ)
    → all is_word u ≡ true
    → is_word c ≡ false
    → span is_word (u ++ c ∷ v) ≡ (u, c ∷ v)
unfolding span all
span_words [] v c h k = rw k refl
span_words (d ∷ u) v c h k =
    rw (span_words u v c (&&-right (is_word d) _ h) k, &&-left (is_word d) _ h) refl

all-reverse_aux :
    (p : ℕ → Bool) (s t : Text) → all p s ≡ true → all p t ≡ true → all p (reverse_aux s t) ≡ true
unfolding all
all-reverse_aux p [] t h k = k
all-reverse_aux p (c ∷ s) t h k =
    all-reverse_aux p s (c ∷ t) (&&-right (p c) _ h) (ground (arith, &&-left (p c) _ h))

pub last_part_of :
    (x u : Text) → all is_word u ≡ true → last_part (reverse (x ++ b'.' ∷ u)) ≡ some (u, reverse x)
unfolding last_part
last_part_of x u h =
    let turned : reverse (x ++ b'.' ∷ u) ≡ reverse u ++ b'.' ∷ reverse x =
      reverse_aux-append x (b'.' ∷ u) [] ∙ reverse_aux-eq u (b'.' ∷ reverse x) in
    let cut : span is_word (reverse u ++ b'.' ∷ reverse x) ≡ (reverse u, b'.' ∷ reverse x) =
      span_words (reverse u) (reverse x) b'.'
        (all-reverse_aux (λ c. is_word c) u [] h (unfold all in refl)) refl in
    ap (λ t. after_dot (span is_word t)) turned
    ∙ ap after_dot cut
    ∙ ap (λ t. some (t, reverse x)) (reverse-reverse u)

-- A token that is put together from parts is taken apart into them.
pub split_token-token_of :
    (p : Parts)
    → is_key_id p.key_id ≡ true
    → IsPart p.payload
    → all is_word p.signature ≡ true
    → nat_eq (length p.signature) 43 ≡ true
    → split_token (token_of p) ≡ some p
unfolding split_token strip_prefix
split_token-token_of p key payload words size =
    rw
      (
        last_part_of (signing_input p.key_id p.payload) p.signature words,
        size,
        last_part_of (codes "sgrt.v1." ++ p.key_id) p.payload payload.words,
        payload.some_words,
        reverse-reverse (codes "sgrt.v1." ++ p.key_id),
        key,
      )
      refl
