-- ===== src/Contracts/Ids.antt =====
-- contracts/src/ids.ts: an opaque identifier is a prefix, `_` and a 26-character Crockford ULID.
use surfgate.Common.{
  ℕ, Bool, false, ◌&&◌, ◌||◌, ◌∷◌, [], ◌++◌, none, some, nat_eq, leb, length, all,
}
use surfgate.Contracts.Text.{Text, codes, is_digit, strip_prefix}

-- `[0-9A-HJKMNP-TV-Z]`
abbrev is_crockford : ℕ → Bool
is_crockford c =
    is_digit c
    || (leb b'A' c && leb c b'H')
    || nat_eq c b'J'
    || nat_eq c b'K'
    || nat_eq c b'M'
    || nat_eq c b'N'
    || (leb b'P' c && leb c b'T')
    || (leb b'V' c && leb c b'Z')

is_ulid : Text → Bool
unfolding all
is_ulid [] = false
is_ulid (c ∷ rest) =
    leb b'0' c && leb c b'7' && nat_eq (length rest) 25 && all (λ d. is_crockford d) rest

unfoldable pub is_opaque_id : Text → Text → Bool
unfolding is_ulid strip_prefix
is_opaque_id prefix id = elim (strip_prefix (prefix ++ b'_' ∷ []) id) [
  | none ↦ false
  | some rest ↦ is_ulid rest
]

unfoldable pub is_tenant_id : Text → Bool
unfolding is_opaque_id
is_tenant_id = is_opaque_id (codes "ten")

unfoldable pub is_session_id : Text → Bool
unfolding is_opaque_id
is_session_id = is_opaque_id (codes "ses")

unfoldable pub is_routing_decision_id : Text → Bool
unfolding is_opaque_id
is_routing_decision_id = is_opaque_id (codes "rtd")

unfoldable pub is_task_id : Text → Bool
unfolding is_opaque_id
is_task_id = is_opaque_id (codes "tsk")

unfoldable pub is_artifact_id : Text → Bool
unfolding is_opaque_id
is_artifact_id = is_opaque_id (codes "art")

unfoldable pub is_request_id : Text → Bool
unfolding is_opaque_id
is_request_id = is_opaque_id (codes "req")

unfoldable pub is_api_key_id : Text → Bool
unfolding is_opaque_id
is_api_key_id = is_opaque_id (codes "key")
