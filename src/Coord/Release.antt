-- ===== src/Coord/Release.antt =====
-- Every handler gives the lock back.
use nm_openvpn.Base.{Option, arith, none, some, suc, true, ℕ, ◌+◌, ◌<◌, ◌≡◌, ◌≤◌}
use nm_openvpn.Coord.Defs.{
  Pc, check_session, clear_flag, build_profile, early_check, import, new_tunnel, stash,
  second_check, wait_ready, spawn_listeners, last_check, bring_up, spawn_poller, drop_config,
  cleanup, hang_up, hang_up_again, remove_left, report_error, take_session, end_session,
  end_session_again, end_config, set_stopped, leave, Plugin,
}
use nm_openvpn.Coord.Steps.{
  ConnectRuns, CleanupRuns, ReportRuns, DisconnectRuns, in_connect, in_cleanup, in_report,
  in_disconnect, Runs, accepted, cleared_flag, profile_failed, profile_built, early_teardown,
  early_clear, import_failed, import_reply_lost, tunnel_reply_lost, import_done, tunnel_failed,
  tunnel_made, config_dropped, stashed, second_teardown, second_clear, not_ready, ready, listening,
  last_teardown, last_clear, connect_failed, connected, polling, cleaned, hung_up, hang_up_failed,
  hung_up_again, hang_up_failed_twice, left_removed, error_deferred, error_reported, taken_session,
  taken_none, end_done, end_failed, end_done_again, end_failed_twice, config_ended, stopped_session,
  left, refused,
}

-- An upper bound of the steps to the release of the lock, that of the longest way.
abbrev pub distance : Pc → ℕ
distance check_session = 18
distance clear_flag = 17
distance build_profile = 16
distance early_check = 15
distance import = 14
distance new_tunnel = 13
distance stash = 12
distance second_check = 11
distance wait_ready = 10
distance spawn_listeners = 9
distance last_check = 8
distance bring_up = 7
distance spawn_poller = 2
distance drop_config = 3
distance cleanup = 6
distance (hang_up c) = 5
distance (hang_up_again c) = 4
distance (remove_left c) = 3
distance report_error = 2
distance take_session = 6
distance (end_session c) = 5
distance (end_session_again c) = 4
distance (end_config c) = 3
distance set_stopped = 2
distance leave = 1

abbrev pub to_go : Option Pc → ℕ
to_go none = 0
to_go (some pc) = distance pc

ConnectRuns-lt : {s s' : Plugin} {pc : Pc} → ConnectRuns s pc s' → to_go s'.holder < distance pc
ConnectRuns-lt (refused p) = omega arith
ConnectRuns-lt (accepted p) = omega arith
ConnectRuns-lt cleared_flag = omega arith
ConnectRuns-lt profile_failed = omega arith
ConnectRuns-lt profile_built = omega arith
ConnectRuns-lt (early_teardown p) = omega arith
ConnectRuns-lt (early_clear p) = omega arith
ConnectRuns-lt import_failed = omega arith
ConnectRuns-lt import_reply_lost = omega arith
ConnectRuns-lt import_done = omega arith
ConnectRuns-lt tunnel_failed = omega arith
ConnectRuns-lt tunnel_made = omega arith
ConnectRuns-lt tunnel_reply_lost = omega arith
ConnectRuns-lt config_dropped = omega arith
ConnectRuns-lt stashed = omega arith
ConnectRuns-lt (second_teardown p) = omega arith
ConnectRuns-lt (second_clear p) = omega arith
ConnectRuns-lt not_ready = omega arith
ConnectRuns-lt ready = omega arith
ConnectRuns-lt listening = omega arith
ConnectRuns-lt (last_teardown p) = omega arith
ConnectRuns-lt (last_clear p) = omega arith
ConnectRuns-lt connect_failed = omega arith
ConnectRuns-lt connected = omega arith
ConnectRuns-lt polling = omega arith

CleanupRuns-lt : {s s' : Plugin} {pc : Pc} → CleanupRuns s pc s' → to_go s'.holder < distance pc
CleanupRuns-lt cleaned = omega arith
CleanupRuns-lt hung_up = omega arith
CleanupRuns-lt hang_up_failed = omega arith
CleanupRuns-lt hung_up_again = omega arith
CleanupRuns-lt hang_up_failed_twice = omega arith
CleanupRuns-lt left_removed = omega arith

ReportRuns-lt : {s s' : Plugin} {pc : Pc} → ReportRuns s pc s' → to_go s'.holder < distance pc
ReportRuns-lt (error_deferred p) = omega arith
ReportRuns-lt (error_reported p) = omega arith

DisconnectRuns-lt :
    {s s' : Plugin} {pc : Pc} → DisconnectRuns s pc s' → to_go s'.holder < distance pc
DisconnectRuns-lt (taken_session p) = omega arith
DisconnectRuns-lt (taken_none p) = omega arith
DisconnectRuns-lt end_done = omega arith
DisconnectRuns-lt end_failed = omega arith
DisconnectRuns-lt end_done_again = omega arith
DisconnectRuns-lt end_failed_twice = omega arith
DisconnectRuns-lt config_ended = omega arith
DisconnectRuns-lt stopped_session = omega arith

pub Runs-lt : {s s' : Plugin} {pc : Pc} → Runs s pc s' → to_go s'.holder < distance pc
Runs-lt (in_connect r) = ConnectRuns-lt r
Runs-lt (in_cleanup r) = CleanupRuns-lt r
Runs-lt (in_report r) = ReportRuns-lt r
Runs-lt (in_disconnect r) = DisconnectRuns-lt r
Runs-lt left = omega arith

-- `n` steps of the handler that holds the lock, with Disconnects that raise the flag in between.
pub data Working : ℕ → Plugin → Plugin → Type 0 where
  idle : {s : Plugin} → Working 0 s s
  flagged :
      {n : ℕ} {s t : Plugin}
      → Working n s t
      → Working n s (record t { teardown = true; waiting = t.waiting + 1 })
  worked :
      {n : ℕ} {s t u : Plugin} {pc : Pc}
      → Working n s t
      → t.holder ≡ some pc
      → Runs t pc u
      → Working (suc n) s u

-- However the calls of openvpn3 end and however many Disconnects come in between, the handler that
-- holds the lock has given it back after as many steps as its place allows; a Connect has eighteen
-- at most, and a Disconnect six.
pub Working-le : {n : ℕ} {s t : Plugin} → Working n s t → n + to_go t.holder ≤ to_go s.holder
Working-le idle = omega arith
Working-le (flagged w) = Working-le w
Working-le (worked {n} {s} {t} {u} {pc} w h r) =
    let before : n + to_go t.holder ≤ to_go s.holder = Working-le w in
    let here = (rw h at before) in let less = Runs-lt r in omega arith
