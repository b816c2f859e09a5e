-- ===== src/Status/Laws.antt =====
-- The decoding of the wire pairs.
use nm_openvpn.Base.{arith, some, ℕ, ◌↔◌, ◌≡◌}
use nm_openvpn.Status.{
  Status, connection, session, connecting, connected, disconnecting, disconnected, failed,
  auth_failed, reconnecting, completed, session_auth_failed, major_from_u32, connection_from_u32,
  session_from_u32, with_major, from_wire,
}

-- The pair of numbers that a status has on the wire: the discriminants of the source's enums.
unfoldable pub wire : Status → ℕ × ℕ
wire (connection connecting) = (2, 6)
wire (connection connected) = (2, 7)
wire (connection disconnecting) = (2, 8)
wire (connection disconnected) = (2, 9)
wire (connection failed) = (2, 10)
wire (connection auth_failed) = (2, 11)
wire (connection reconnecting) = (2, 12)
wire (connection completed) = (2, 16)
wire (session session_auth_failed) = (3, 11)

pub from_wire-wire : (s : Status) → from_wire (wire s).0 (wire s).1 ≡ some s
unfolding from_wire with_major major_from_u32 connection_from_u32 session_from_u32 wire
from_wire-wire s = ground arith

pub wire-from_wire :
    (major minor : ℕ) (s : Status) → from_wire major minor ≡ some s → wire s ≡ (major, minor)
unfolding from_wire with_major major_from_u32 connection_from_u32 session_from_u32 wire
wire-from_wire major minor s h = ground arith

-- `from_wire` accepts a pair exactly if it is the pair of a status, and then gives that status.
pub from_wire_iff :
    (major minor : ℕ) (s : Status) → (from_wire major minor ≡ some s) ↔ (wire s ≡ (major, minor))
from_wire_iff major minor s = (wire-from_wire major minor s, λ e. cc (from_wire-wire s))
