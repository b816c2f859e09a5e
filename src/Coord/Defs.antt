-- ===== src/Coord/Defs.antt =====
-- The state that the handlers share, and where a handler stands.
use nm_openvpn.Base.{Bool, Option, ℕ}
use nm_openvpn.Status.{NmVpnServiceState}

-- Where the handler that holds the coordinator's lock stands, with what it has at hand. A path is
-- the number 1 of the counters below.
pub data Pc : Type 0 where
  -- `do_connect`: the refusal gate, `clear_teardown`, settings and profile, the early check, the
  -- import, the new tunnel, and the stash of both paths
  check_session clear_flag build_profile early_check import new_tunnel stash : Pc
  -- the check behind the stash, `session_wait_ready`, the listeners and the grant, the last check,
  -- `session_connect`, the poller and the stats timer
  second_check wait_ready spawn_listeners last_check bring_up spawn_poller : Pc
  -- NewTunnel has failed: the config is removed
  drop_config : Pc
  -- `cleanup_session`: the abort of the tasks, the two tries of `session_disconnect`, and the
  -- removal of the config, if one was on record
  cleanup : Pc
  hang_up hang_up_again remove_left : (config : Bool) → Pc
  -- `connect`, after an error of `do_connect`
  report_error : Pc
  -- `disconnect`: `mem::take`, then the same tries and the config (each may be missing)
  take_session : Pc
  end_session end_session_again : (config : Bool) → Pc
  end_config : (config : Bool) → Pc
  set_stopped : Pc
  -- about to drop the guard
  leave : Pc

pub record Plugin : Type 0 where
  -- `ConnectCoordinator`: the flag; the holder of the lock; the Disconnects that wait for it
  pub teardown : Bool
  pub holder : Option Pc
  pub waiting : ℕ
  -- `SessionState`: whether the two paths are there, and the number of background tasks
  pub session_path : Bool
  pub config_path : Bool
  pub tasks : ℕ
  pub state : NmVpnServiceState
  -- openvpn3, since the start: the sessions that NewTunnel has made; those whose Disconnect was
  -- answered; those whose Disconnect has failed twice; those that were made although the call
  -- failed. Openvpn3 may drop any of them by itself.
  pub made : ℕ
  pub ended : ℕ
  pub orphans : ℕ
  pub lost : ℕ
  -- the configs that Import has made; those that were asked to be removed; those that were made
  -- although the call failed
  pub imported : ℕ
  pub removed : ℕ
  pub unseen : ℕ
  -- the Failure signals that `connect` itself has sent
  pub failures : ℕ
  -- `quit_tx` has fired; `--persist`
  pub quit : Bool
  pub persist : Bool
