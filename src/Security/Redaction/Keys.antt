-- ===== src/Security/Redaction/Keys.antt =====
-- security/src/redaction.ts: the keys whose values are left out.
use surfgate.Common.{ℕ, ◌+◌, Bool, ◌||◌, List, [], ◌∷◌, ◌++◌, nat_eq, if◌then◌else◌, includes}
use surfgate.Contracts.Text.{Text, text_eq, codes, is_digit, is_lower, is_upper}

abbrev pub sensitive_keys : List Text
sensitive_keys =
    codes "accesskeyid"
    ∷ codes "apikey"
    ∷ codes "apikeyhash"
    ∷ codes "authorization"
    ∷ codes "browserrunapitoken"
    ∷ codes "clientsecret"
    ∷ codes "cloudflarebrowserrunapitoken"
    ∷ codes "connectionstring"
    ∷ codes "cookie"
    ∷ codes "credentials"
    ∷ codes "databaseurl"
    ∷ codes "idempotencykey"
    ∷ codes "jwt"
    ∷ codes "key"
    ∷ codes "keyhash"
    ∷ codes "password"
    ∷ codes "paseto"
    ∷ codes "privatekey"
    ∷ codes "providersessionreference"
    ∷ codes "providersessionreferenceencrypted"
    ∷ codes "proxyauthorization"
    ∷ codes "refreshtoken"
    ∷ codes "relaytoken"
    ∷ codes "secret"
    ∷ codes "secretaccesskey"
    ∷ codes "sessiontoken"
    ∷ codes "setcookie"
    ∷ codes "signingkey"
    ∷ codes "surfgateprovidersessionencryptionkey"
    ∷ codes "surfgaterelaytokensigningkey"
    ∷ codes "token"
    ∷ codes "xapikey"
    ∷ []

-- What `toLowerCase` and the removal of all but `[a-z0-9]` leave of a code unit. Beyond ASCII, the
-- Kelvin sign turns to k and the capital I with a dot to i with a mark.
abbrev key_units : ℕ → Text
key_units c =
    if is_digit c || is_lower c
    then c ∷ []
    else if is_upper c
    then (c + 32) ∷ []
    else if nat_eq c 0x212a
    then b'k' ∷ []
    else if nat_eq c 0x130
    then b'i' ∷ []
    else []

unfoldable pub normalized_key : Text → Text
normalized_key [] = []
normalized_key (c ∷ t) = key_units c ++ normalized_key t

unfoldable pub is_sensitive : Text → Bool
unfolding normalized_key includes
is_sensitive key = includes sensitive_keys (normalized_key key)
