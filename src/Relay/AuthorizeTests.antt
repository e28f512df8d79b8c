-- ===== src/Relay/AuthorizeTests.antt =====
-- relay/src/authorization.ts: a connection that is authorised.
use surfgate.Common.{◌≡◌, ◌↔◌, false, none, some, ok}
use surfgate.Session.Record.{active}
use surfgate.Security.Tests.{claims, issued}
use surfgate.Relay.Authorize.{
  RelaySession, Dependencies, Authorized, authorize_relay_session,
  authorize_relay_session-Authorized,
}

abbrev row : RelaySession
row = record {
  tenant_id = claims.tenant_id;
  session_id = claims.session_id;
  status = active;
  expires_at = some 900000;
  provider_session_reference_encrypted = none;
}

abbrev services : Dependencies
services = record {
  verify = λ t. ok claims;
  find_session_for_tenant = λ tenant session. ok (some row);
  is_session_revoked = λ tenant session. ok false;
  now = 130000;
}

authorize_relay_session-Authorized_example :
    (authorize_relay_session services issued.token claims.session_id ≡ ok (row, claims))
    ↔ Authorized services issued.token claims.session_id row claims
authorize_relay_session-Authorized_example =
    authorize_relay_session-Authorized services issued.token claims.session_id row claims
