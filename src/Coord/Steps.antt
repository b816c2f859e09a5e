-- ===== src/Coord/Steps.antt =====
-- The steps of the handlers. Calls of openvpn3 may fail where the source looks at the result; a call
-- that fails may have been carried out all the same, if only its reply was lost.
use nm_openvpn.Base.{Bool, false, if◌then◌else◌, none, some, true, ℕ, ◌+◌, ◌-◌, ◌<◌, ◌≡◌}
use nm_openvpn.Status.{init, starting, stopped}
use nm_openvpn.Coord.Defs.{
  Pc, check_session, clear_flag, build_profile, early_check, import, new_tunnel, stash,
  second_check, wait_ready, spawn_listeners, last_check, bring_up, spawn_poller, drop_config,
  cleanup, hang_up, hang_up_again, remove_left, report_error, take_session, end_session,
  end_session_again, end_config, set_stopped, leave, Plugin,
}

abbrev pub goto : Pc → Plugin → Plugin
goto pc s = record s { holder = some pc }

-- `cleanup_session` up to the call of openvpn3.
abbrev cleared : Plugin → Plugin
cleared s = record s { tasks = 0; session_path = false; config_path = false }

abbrev pub bit : Bool → ℕ
bit true = 1
bit false = 0

-- One step of `do_connect`, from the point `pc`.
pub data ConnectRuns (s : Plugin) : Pc → Plugin → Type 0 where
  refused : s.session_path ≡ true → ConnectRuns s check_session (goto report_error s)
  accepted : s.session_path ≡ false → ConnectRuns s check_session (goto clear_flag s)
  cleared_flag : ConnectRuns s clear_flag (goto build_profile (record s { teardown = false }))
  profile_failed : ConnectRuns s build_profile (goto report_error s)
  profile_built : ConnectRuns s build_profile (goto early_check (record s { state = starting }))
  early_teardown : s.teardown ≡ true → ConnectRuns s early_check (goto report_error s)
  early_clear : s.teardown ≡ false → ConnectRuns s early_check (goto import s)
  import_failed : ConnectRuns s import (goto report_error s)
  import_reply_lost :
      ConnectRuns s import
        (goto report_error (record s { imported = s.imported + 1; unseen = s.unseen + 1 }))
  import_done : ConnectRuns s import (goto new_tunnel (record s { imported = s.imported + 1 }))
  tunnel_failed : ConnectRuns s new_tunnel (goto drop_config s)
  tunnel_made : ConnectRuns s new_tunnel (goto stash (record s { made = s.made + 1 }))
  tunnel_reply_lost :
      ConnectRuns s new_tunnel
        (goto drop_config (record s { made = s.made + 1; lost = s.lost + 1 }))
  config_dropped :
      ConnectRuns s drop_config (goto report_error (record s { removed = s.removed + 1 }))
  stashed :
      ConnectRuns s stash (goto second_check (record s { session_path = true; config_path = true }))
  second_teardown : s.teardown ≡ true → ConnectRuns s second_check (goto cleanup s)
  second_clear : s.teardown ≡ false → ConnectRuns s second_check (goto wait_ready s)
  not_ready : ConnectRuns s wait_ready (goto cleanup s)
  ready : ConnectRuns s wait_ready (goto spawn_listeners s)
  listening : ConnectRuns s spawn_listeners (goto last_check (record s { tasks = s.tasks + 2 }))
  last_teardown : s.teardown ≡ true → ConnectRuns s last_check (goto cleanup s)
  last_clear : s.teardown ≡ false → ConnectRuns s last_check (goto bring_up s)
  connect_failed : ConnectRuns s bring_up (goto cleanup s)
  connected : ConnectRuns s bring_up (goto spawn_poller s)
  polling : ConnectRuns s spawn_poller (goto leave (record s { tasks = s.tasks + 2 }))

-- One step of `cleanup_session`.
pub data CleanupRuns (s : Plugin) : Pc → Plugin → Type 0 where
  cleaned : CleanupRuns s cleanup (goto (hang_up s.config_path) (cleared s))
  hung_up :
      {c : Bool}
      → CleanupRuns s (hang_up c) (goto (remove_left c) (record s { ended = s.ended + 1 }))
  hang_up_failed : {c : Bool} → CleanupRuns s (hang_up c) (goto (hang_up_again c) s)
  hung_up_again :
      {c : Bool}
      → CleanupRuns s (hang_up_again c) (goto (remove_left c) (record s { ended = s.ended + 1 }))
  hang_up_failed_twice :
      {c : Bool}
      → CleanupRuns s
          (hang_up_again c)
          (goto (remove_left c) (record s { orphans = s.orphans + 1 }))
  left_removed :
      {c : Bool}
      → CleanupRuns s (remove_left c) (goto report_error (record s { removed = s.removed + bit c }))

-- What `connect` does about an error of `do_connect`.
pub data ReportRuns (s : Plugin) : Pc → Plugin → Type 0 where
  error_deferred : s.teardown ≡ true → ReportRuns s report_error (goto leave s)
  error_reported :
      s.teardown ≡ false
      → ReportRuns s report_error
          (goto leave (record s { state = stopped; failures = s.failures + 1 }))

-- One step of `disconnect`, behind the lock.
pub data DisconnectRuns (s : Plugin) : Pc → Plugin → Type 0 where
  taken_session :
      s.session_path ≡ true
      → DisconnectRuns s take_session (goto (end_session s.config_path) (cleared s))
  taken_none :
      s.session_path ≡ false
      → DisconnectRuns s take_session (goto (end_config s.config_path) (cleared s))
  end_done :
      {c : Bool}
      → DisconnectRuns s (end_session c) (goto (end_config c) (record s { ended = s.ended + 1 }))
  end_failed : {c : Bool} → DisconnectRuns s (end_session c) (goto (end_session_again c) s)
  end_done_again :
      {c : Bool}
      → DisconnectRuns s
          (end_session_again c)
          (goto (end_config c) (record s { ended = s.ended + 1 }))
  end_failed_twice :
      {c : Bool}
      → DisconnectRuns s
          (end_session_again c)
          (goto (end_config c) (record s { orphans = s.orphans + 1 }))
  config_ended :
      {c : Bool}
      → DisconnectRuns s
          (end_config c)
          (goto set_stopped (record s { removed = s.removed + bit c }))
  stopped_session :
      DisconnectRuns s set_stopped
        (goto leave (record s { state = stopped; quit = if s.persist then s.quit else true }))

-- One step of the handler that holds the lock and stands at `pc`.
pub data Runs (s : Plugin) : Pc → Plugin → Type 0 where
  in_connect : {pc : Pc} {s' : Plugin} → ConnectRuns s pc s' → Runs s pc s'
  in_cleanup : {pc : Pc} {s' : Plugin} → CleanupRuns s pc s' → Runs s pc s'
  in_report : {pc : Pc} {s' : Plugin} → ReportRuns s pc s' → Runs s pc s'
  in_disconnect : {pc : Pc} {s' : Plugin} → DisconnectRuns s pc s' → Runs s pc s'
  left : Runs s leave (record s { holder = none })

pub data Step (s : Plugin) : Plugin → Type 0 where
  -- `lock_connect` succeeds for a Connect
  enter_connect : s.holder ≡ none → Step s (goto check_session s)
  -- `lock_disconnect`: the flag is stored, at any time, and the Disconnect waits
  flag_disconnect : Step s (record s { teardown = true; waiting = s.waiting + 1 })
  enter_disconnect :
      s.holder ≡ none
      → 0 < s.waiting
      → Step s (goto take_session (record s { waiting = s.waiting - 1 }))
  runs : {pc : Pc} {s' : Plugin} → s.holder ≡ some pc → Runs s pc s' → Step s s'

abbrev pub fresh : Bool → Plugin
fresh persist = record {
  teardown = false;
  holder = none;
  waiting = 0;
  session_path = false;
  config_path = false;
  tasks = 0;
  state = init;
  made = 0;
  ended = 0;
  orphans = 0;
  lost = 0;
  imported = 0;
  removed = 0;
  unseen = 0;
  failures = 0;
  quit = false;
  persist = persist;
}

pub data Reach : Plugin → Type 0 where
  start : (persist : Bool) → Reach (fresh persist)
  next : {s t : Plugin} → Reach s → Step s t → Reach t
