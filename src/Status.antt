-- ===== src/Status.antt =====
-- nm-openvpn3-service/src/status.rs and state.rs: openvpn3's status pairs, NetworkManager's service
-- states and failure reasons.
pub mod Laws
use nm_openvpn.Base.{Option, if◌then◌else◌, none, some, ℕ, ◌==◌}

pub data NmVpnServiceState : Type 0 where
  unknown init shutdown starting started stopping stopped : NmVpnServiceState

-- `NMVpnServiceState::as_u32`
unfoldable pub state_code : NmVpnServiceState → ℕ
state_code unknown = 0
state_code init = 1
state_code shutdown = 2
state_code starting = 3
state_code started = 4
state_code stopping = 5
state_code stopped = 6

pub data NmVpnPluginFailure : Type 0 where
  login_failed connect_failed bad_ip_config : NmVpnPluginFailure

-- `NMVpnPluginFailure::as_u32`
unfoldable pub failure_code : NmVpnPluginFailure → ℕ
failure_code login_failed = 0
failure_code connect_failed = 1
failure_code bad_ip_config = 2

pub data StatusMajor : Type 0 where
  connection_major session_major : StatusMajor

unfoldable pub major_from_u32 : ℕ → Option StatusMajor
major_from_u32 v =
    if v == 2 then some connection_major else if v == 3 then some session_major else none

pub data ConnectionMinor : Type 0 where
  connecting connected disconnecting disconnected failed auth_failed reconnecting : ConnectionMinor
  completed : ConnectionMinor

unfoldable pub connection_from_u32 : ℕ → Option ConnectionMinor
connection_from_u32 v =
    if v == 6
    then some connecting
    else if v == 7
    then some connected
    else if v == 8
    then some disconnecting
    else if v == 9
    then some disconnected
    else if v == 10
    then some failed
    else if v == 11
    then some auth_failed
    else if v == 12
    then some reconnecting
    else if v == 16
    then some completed
    else none

pub data SessionMinor : Type 0 where
  session_auth_failed : SessionMinor

unfoldable pub session_from_u32 : ℕ → Option SessionMinor
session_from_u32 v = if v == 11 then some session_auth_failed else none

pub data Status : Type 0 where
  connection : ConnectionMinor → Status
  session : SessionMinor → Status

unfoldable pub with_major : Option StatusMajor → ℕ → Option Status
with_major (some connection_major) minor = elim (connection_from_u32 minor) [
  | some m ↦ some (connection m)
  | none ↦ none
]
with_major (some session_major) minor = elim (session_from_u32 minor) [
  | some m ↦ some (session m)
  | none ↦ none
]
with_major none minor = none

unfoldable pub from_wire : ℕ → ℕ → Option Status
from_wire major minor = with_major (major_from_u32 major) minor

-- The transition that NetworkManager expects; `none` is "log only".
unfoldable pub to_nm_state : Status → Option NmVpnServiceState
to_nm_state (connection connecting) = some starting
to_nm_state (connection reconnecting) = some starting
to_nm_state (connection connected) = some started
to_nm_state (connection disconnected) = some stopped
to_nm_state (connection failed) = some stopped
to_nm_state (connection auth_failed) = some stopped
to_nm_state (connection completed) = some stopped
to_nm_state (session session_auth_failed) = some stopped
to_nm_state (connection disconnecting) = none

unfoldable pub failure_reason : Status → NmVpnPluginFailure
failure_reason (connection auth_failed) = login_failed
failure_reason (session session_auth_failed) = login_failed
failure_reason _ = connect_failed
