-- ===== src/Relay/Authorize.antt =====
-- relay/src/authorization.ts: `authorizeRelaySession`.
use surfgate.Common.{
  ℕ, ◌≡◌, ◌↔◌, refl, subst, Bool, true, false, ◌==◌, ==-iff, Option, none, some, ltb, ltb→lt,
  lt→ltb, ◌<◌, Result, ok, err, guard, arith, ◌>>=◌, ◌>>◌,
}
use surfgate.Common.Results.{bind-ok, guard-ok}
use surfgate.Contracts.Text.{Text, text_eq}
use surfgate.Contracts.Tasks.{Timestamp}
use surfgate.Session.Record.{
  SessionStatus, pending, routing, allocating, fallback_allocating, active, terminating, terminated,
  expired, failed,
}
use surfgate.Security.Claims.{Claims}
use surfgate.Security.Token.{TokenError, token_expired}

-- `RelaySessionRecord`
pub record RelaySession : Type 0 where
  pub tenant_id : Text
  pub session_id : Text
  pub status : SessionStatus
  pub expires_at : Option Timestamp
  pub provider_session_reference_encrypted : Option Text

pub data RelayFailure : Type 0 where
  auth_invalid relay_token_expired session_not_found session_not_connectable session_expired
        session_revoked internal_error :
      RelayFailure

-- The services that the call is given; a call of the database or of Redis may throw.
pub record Dependencies : Type 0 where
  pub verify : Text → Result TokenError Claims
  pub find_session_for_tenant : Text → Text → Result (Unit {0}) (Option RelaySession)
  pub is_session_revoked : Text → Text → Result (Unit {0}) Bool
  pub now : ℕ

abbrev token_failure : TokenError → RelayFailure
token_failure token_expired = relay_token_expired
token_failure _ = auth_invalid

abbrev verified : Result TokenError Claims → Result RelayFailure Claims
verified (ok c) = ok c
verified (err e) = err (token_failure e)

abbrev found : Result (Unit {0}) (Option RelaySession) → Result RelayFailure RelaySession
found (ok (some s)) = ok s
found (ok none) = err session_not_found
found (err e) = err internal_error

abbrev pub is_connectable : SessionStatus → Bool
is_connectable active = true
is_connectable _ = false

-- `Number.isFinite(expiresAtMs) && expiresAtMs > now`
abbrev pub runs_at : ℕ → Option Timestamp → Bool
runs_at now none = false
runs_at now (some expiry) = ltb now expiry

abbrev not_revoked : Result (Unit {0}) Bool → Result RelayFailure (Unit {0})
not_revoked (ok true) = err session_revoked
not_revoked (ok false) = ok tt
not_revoked (err e) = err internal_error

-- `authorizeRelaySession`
unfoldable pub authorize_relay_session :
    Dependencies → Text → Text → Result RelayFailure (RelaySession × Claims)
authorize_relay_session d token path_session_id = do
  c ← verified (d.verify token)
  guard (c.session_id == path_session_id) auth_invalid
  s ← found (d.find_session_for_tenant c.tenant_id c.session_id)
  guard (is_connectable s.status) session_not_connectable
  guard (runs_at d.now s.expires_at) session_expired
  not_revoked (d.is_session_revoked c.tenant_id c.session_id)
  ok (s, c)

-- What has to hold of a connection.
pub record Authorized (d : Dependencies) (token path_session_id : Text) (s : RelaySession)
    (c : Claims) : Type 0 where
  pub valid : d.verify token ≡ ok c
  pub this_session : c.session_id ≡ path_session_id
  pub stored : d.find_session_for_tenant c.tenant_id c.session_id ≡ ok (some s)
  pub connectable : s.status ≡ active
  pub expiry : Timestamp
  pub expires : s.expires_at ≡ some expiry
  pub running : d.now < expiry
  pub standing : d.is_session_revoked c.tenant_id c.session_id ≡ ok false

active_only : (t : SessionStatus) → is_connectable t ≡ true → t ≡ active
active_only active h = refl
active_only pending h = cc
active_only routing h = cc
active_only allocating h = cc
active_only fallback_allocating h = cc
active_only terminating h = cc
active_only terminated h = cc
active_only expired h = cc
active_only failed h = cc

runs_until :
    (now : ℕ) (o : Option Timestamp)
    → runs_at now o ≡ true
    → (expiry : Timestamp) × (o ≡ some expiry) × (now < expiry)
runs_until now none h = cc
runs_until now (some expiry) h = (expiry, refl, ltb→lt now expiry h)

Authorized-authorize :
    (d : Dependencies) (token path : Text) (s : RelaySession) (c : Claims)
    → Authorized d token path s c
    → authorize_relay_session d token path ≡ ok (s, c)
unfolding authorize_relay_session
Authorized-authorize d token path s c a =
    rw
      (
        a.valid,
        (==-iff c.session_id path).1 a.this_session,
        a.stored,
        a.connectable,
        a.expires,
        lt→ltb d.now a.expiry a.running,
        a.standing,
      )
      refl

authorize-Authorized :
    (d : Dependencies) (token path : Text) (s : RelaySession) (c : Claims)
    → authorize_relay_session d token path ≡ ok (s, c)
    → Authorized d token path s c
unfolding authorize_relay_session
authorize-Authorized d token path s c h =
    let (c', e1, h1) = bind-ok (verified (d.verify token)) _ (s, c) h in
    let (e2, h2) = guard-ok (c'.session_id == path) auth_invalid _ (s, c) h1 in
    let (s', e3, h3) =
      bind-ok (found (d.find_session_for_tenant c'.tenant_id c'.session_id)) _ (s, c) h2 in
    let (e4, h4) = guard-ok (is_connectable s'.status) session_not_connectable _ (s, c) h3 in
    let (e5, h5) = guard-ok (runs_at d.now s'.expires_at) session_expired _ (s, c) h4 in
    let (expiry, expires, running) = runs_until d.now s'.expires_at e5 in
    let (u, e6, h6) =
      bind-ok (not_revoked (d.is_session_revoked c'.tenant_id c'.session_id)) _ (s, c) h5 in
    let same : (s', c') ≡ (s, c) = pair_of (s', c') (s, c) h6 in
    subst (λ x. Authorized d token path x.0 x.1) same
      (record {
        valid = valid_token (d.verify token) c' e1;
        this_session = (==-iff c'.session_id path).0 e2;
        stored = stored_session (d.find_session_for_tenant c'.tenant_id c'.session_id) s' e3;
        connectable = active_only s'.status e4;
        expiry = expiry;
        expires = expires;
        running = running;
        standing = still_standing (d.is_session_revoked c'.tenant_id c'.session_id) u e6;
      })
  where
    answered : RelaySession × Claims → Result RelayFailure (RelaySession × Claims)
    answered x = ok x

    pair_of : (x y : RelaySession × Claims) → answered x ≡ answered y → x ≡ y
    pair_of x y e = ground arith

    valid_token : (r : Result TokenError Claims) (c : Claims) → verified r ≡ ok c → r ≡ ok c
    valid_token (ok x) c e = ground arith
    valid_token (err x) c e = cc

    stored_session :
        (r : Result (Unit {0}) (Option RelaySession)) (s : RelaySession)
        → found r ≡ ok s
        → r ≡ ok (some s)
    stored_session (ok (some x)) s e = ground arith
    stored_session (ok none) s e = cc
    stored_session (err x) s e = cc

    still_standing :
        (r : Result (Unit {0}) Bool) (u : Unit {0}) → not_revoked r ≡ ok u → r ≡ ok false
    still_standing (ok false) u e = refl
    still_standing (ok true) u e = cc
    still_standing (err x) u e = cc

-- A connection is authorised exactly when its token is verified to claims for the session of the
-- path, the tenant has that session, the session is active and has an expiry ahead of now, and it
-- is known not to be revoked.
pub authorize_relay_session-Authorized :
    (d : Dependencies) (token path : Text) (s : RelaySession) (c : Claims)
    → (authorize_relay_session d token path ≡ ok (s, c)) ↔ Authorized d token path s c
authorize_relay_session-Authorized d token path s c =
    (authorize-Authorized d token path s c, Authorized-authorize d token path s c)
