-- ===== src/Session/Code.antt =====
-- What a task does between two events, as far as other tasks can see it: its accesses to the cached
-- state, the session's flags and the bus. Each constructor is one or more of the atomic steps of
-- Session/Steps, and holds the code that follows.
use nm_openvpn.Status.{NmVpnServiceState, NmVpnPluginFailure}

pub data Code : Type 0 where
  -- leave the loop; the task is over
  break_loop : Code
  -- back to the head of the loop, for the next event
  next_event : Code
  -- `set_state_via`
  set_state : NmVpnServiceState → Code → Code
  -- `emit_failure_once`
  failure_once : NmVpnPluginFailure → Code → Code
  -- the compare-exchange on `ip4_emitted`, then `ip4::emit`, and `store(false)` where that fails;
  -- the three branches are: published, failed, and lost the race
  publish_ip4 : (published failed lost : Code) → Code
  -- `if !disconnect_requested.load() { a }`, then `b`: the branches are written out
  if_disconnecting : (yes_branch no_branch : Code) → Code
