-- ===== src/Coord/Stopping.antt =====
-- A Disconnect that is let in stops the session.
use nm_openvpn.Base.{
  Bool, Bool-cases, if◌then◌else◌, ◌||◌, ◌⊎◌, Option, arith, false, inl, inr, none, refl, some,
  true, ℕ, ◌≡◌, ◌≤◌,
}
use nm_openvpn.Status.{NmVpnServiceState, stopped}
use nm_openvpn.Coord.Defs.{
  Pc, check_session, clear_flag, build_profile, early_check, import, new_tunnel, stash,
  second_check, wait_ready, spawn_listeners, last_check, bring_up, spawn_poller, drop_config,
  cleanup, hang_up, hang_up_again, remove_left, report_error, take_session, end_session,
  end_session_again, end_config, set_stopped, leave, Plugin,
}
use nm_openvpn.Coord.Steps.{
  connect_failed, hang_up_failed, hang_up_failed_twice, import_failed, import_reply_lost, not_ready,
  profile_failed, tunnel_failed, tunnel_reply_lost, ConnectRuns, CleanupRuns, ReportRuns,
  DisconnectRuns, end_failed, end_failed_twice, in_connect, in_cleanup, in_report, in_disconnect,
  Runs, accepted, cleared_flag, profile_built, early_teardown, early_clear, import_done,
  tunnel_made, config_dropped, stashed, second_teardown, second_clear, ready, listening,
  last_teardown, last_clear, connected, polling, cleaned, hung_up, hung_up_again, left_removed,
  error_deferred, error_reported, taken_session, taken_none, end_done, end_done_again, config_ended,
  stopped_session, left, refused,
}
use nm_openvpn.Coord.Release.{Working, Working-le, flagged, idle, worked}

-- A handler that works has a next step, if the call that it waits for is answered.
pub progress : (s : Plugin) (pc : Pc) → (s' : Plugin) × Runs s pc s'
progress s check_session = elim (Bool-cases s.session_path) [
  | inl h ↦ (_, in_connect (refused h))
  | inr h ↦ (_, in_connect (accepted h))
]
progress s clear_flag = (_, in_connect cleared_flag)
progress s build_profile = (_, in_connect profile_built)
progress s early_check = elim (Bool-cases s.teardown) [
  | inl h ↦ (_, in_connect (early_teardown h))
  | inr h ↦ (_, in_connect (early_clear h))
]
progress s import = (_, in_connect import_done)
progress s new_tunnel = (_, in_connect tunnel_made)
progress s stash = (_, in_connect stashed)
progress s second_check = elim (Bool-cases s.teardown) [
  | inl h ↦ (_, in_connect (second_teardown h))
  | inr h ↦ (_, in_connect (second_clear h))
]
progress s wait_ready = (_, in_connect ready)
progress s spawn_listeners = (_, in_connect listening)
progress s last_check = elim (Bool-cases s.teardown) [
  | inl h ↦ (_, in_connect (last_teardown h))
  | inr h ↦ (_, in_connect (last_clear h))
]
progress s bring_up = (_, in_connect connected)
progress s spawn_poller = (_, in_connect polling)
progress s drop_config = (_, in_connect config_dropped)
progress s cleanup = (_, in_cleanup cleaned)
progress s (hang_up c) = (_, in_cleanup hung_up)
progress s (hang_up_again c) = (_, in_cleanup hung_up_again)
progress s (remove_left c) = (_, in_cleanup left_removed)
progress s report_error = elim (Bool-cases s.teardown) [
  | inl h ↦ (_, in_report (error_deferred h))
  | inr h ↦ (_, in_report (error_reported h))
]
progress s take_session = elim (Bool-cases s.session_path) [
  | inl h ↦ (_, in_disconnect (taken_session h))
  | inr h ↦ (_, in_disconnect (taken_none h))
]
progress s (end_session c) = (_, in_disconnect end_done)
progress s (end_session_again c) = (_, in_disconnect end_done_again)
progress s (end_config c) = (_, in_disconnect config_ended)
progress s set_stopped = (_, in_disconnect stopped_session)
progress s leave = (_, left)

-- The session is off the record, its tasks are gone, and the process quits unless it persists.
abbrev pub AreGone : Bool → Bool → ℕ → Type 0
AreGone session config tasks = (session ≡ false) × (config ≡ false) × (tasks ≡ 0)

abbrev pub HasStopped : Bool → Bool → ℕ → NmVpnServiceState → Bool → Type 0
HasStopped session config tasks state quits =
    AreGone session config tasks × (state ≡ stopped) × (quits ≡ true)

-- What a Disconnect has done when it stands at a place.
abbrev Ending : Pc → Bool → Bool → ℕ → NmVpnServiceState → Bool → Type 0
Ending take_session b c n v q = Unit
Ending (end_session k) b c n v q = AreGone b c n
Ending (end_session_again k) b c n v q = AreGone b c n
Ending (end_config k) b c n v q = AreGone b c n
Ending set_stopped b c n v q = AreGone b c n
Ending leave b c n v q = HasStopped b c n v q
Ending _ b c n v q = ⊥

abbrev EndingAt : Option Pc → Bool → Bool → ℕ → NmVpnServiceState → Bool → Type 0
EndingAt none b c n v q = HasStopped b c n v q
EndingAt (some pc) b c n v q = Ending pc b c n v q

abbrev EndsAs : Option Pc → Plugin → Type 0
EndsAs o s = EndingAt o s.session_path s.config_path s.tasks s.state (s.quit || s.persist)

quit_or_persist : (q p : Bool) → ((if p then q else true) || p) ≡ true
quit_or_persist q p = ground arith

ConnectRuns-other : {s u : Plugin} {pc : Pc} → ConnectRuns s pc u → EndsAs (some pc) s → ⊥
ConnectRuns-other (refused p) e = e
ConnectRuns-other (accepted p) e = e
ConnectRuns-other cleared_flag e = e
ConnectRuns-other profile_failed e = e
ConnectRuns-other profile_built e = e
ConnectRuns-other (early_teardown p) e = e
ConnectRuns-other (early_clear p) e = e
ConnectRuns-other import_failed e = e
ConnectRuns-other import_reply_lost e = e
ConnectRuns-other import_done e = e
ConnectRuns-other tunnel_failed e = e
ConnectRuns-other tunnel_made e = e
ConnectRuns-other tunnel_reply_lost e = e
ConnectRuns-other config_dropped e = e
ConnectRuns-other stashed e = e
ConnectRuns-other (second_teardown p) e = e
ConnectRuns-other (second_clear p) e = e
ConnectRuns-other not_ready e = e
ConnectRuns-other ready e = e
ConnectRuns-other listening e = e
ConnectRuns-other (last_teardown p) e = e
ConnectRuns-other (last_clear p) e = e
ConnectRuns-other connect_failed e = e
ConnectRuns-other connected e = e
ConnectRuns-other polling e = e

CleanupRuns-other : {s u : Plugin} {pc : Pc} → CleanupRuns s pc u → EndsAs (some pc) s → ⊥
CleanupRuns-other cleaned e = e
CleanupRuns-other hung_up e = e
CleanupRuns-other hang_up_failed e = e
CleanupRuns-other hung_up_again e = e
CleanupRuns-other hang_up_failed_twice e = e
CleanupRuns-other left_removed e = e

ReportRuns-other : {s u : Plugin} {pc : Pc} → ReportRuns s pc u → EndsAs (some pc) s → ⊥
ReportRuns-other (error_deferred p) e = e
ReportRuns-other (error_reported p) e = e

DisconnectRuns-EndsAs :
    {s u : Plugin} {pc : Pc} → DisconnectRuns s pc u → EndsAs (some pc) s → EndsAs u.holder u
DisconnectRuns-EndsAs (taken_session p) e = (refl, refl, refl)
DisconnectRuns-EndsAs (taken_none p) e = (refl, refl, refl)
DisconnectRuns-EndsAs end_done e = e
DisconnectRuns-EndsAs end_failed e = e
DisconnectRuns-EndsAs end_done_again e = e
DisconnectRuns-EndsAs end_failed_twice e = e
DisconnectRuns-EndsAs config_ended e = e
DisconnectRuns-EndsAs {s} stopped_session e = (e, refl, quit_or_persist s.quit s.persist)

Runs-EndsAs : {s u : Plugin} {pc : Pc} → Runs s pc u → EndsAs (some pc) s → EndsAs u.holder u
Runs-EndsAs (in_disconnect r) e = DisconnectRuns-EndsAs r e
Runs-EndsAs left e = e
Runs-EndsAs (in_connect r) e = absurd (ConnectRuns-other r e)
Runs-EndsAs (in_cleanup r) e = absurd (CleanupRuns-other r e)
Runs-EndsAs (in_report r) e = absurd (ReportRuns-other r e)

Working-EndsAs : {n : ℕ} {s t : Plugin} → Working n s t → EndsAs s.holder s → EndsAs t.holder t
Working-EndsAs idle e = e
Working-EndsAs (flagged w) e = Working-EndsAs w e
Working-EndsAs (worked {n} {s} {t} {u} {pc} w h r) e =
    let before = Working-EndsAs w e in Runs-EndsAs r (rw h at before)

-- A Disconnect that has the lock takes six steps at most, however the calls of openvpn3 end and
-- however many Disconnects raise the flag in between. As long as it has not given the lock back it
-- has a next step, the answer of the call that it waits for, where there is one; when it has, the
-- session and its config are off the record, its tasks are gone, the state is Stopped, and the
-- process has been told to quit unless it was started with --persist.
pub Working-HasStopped :
    {n : ℕ} {s t : Plugin}
    → Working n s t
    → s.holder ≡ some take_session
    → (n ≤ 6)
      × (((pc : Pc) × (u : Plugin) × (t.holder ≡ some pc) × Runs t pc u)
          ⊎ ((t.holder ≡ none)
              × HasStopped t.session_path t.config_path t.tasks t.state (t.quit || t.persist)))
Working-HasStopped {n} {s} {t} w h =
    let bound = (rw h at (Working-le w)) in
    (omega arith, stage t.holder refl (Working-EndsAs w (rw h tt)))
  where
    stage :
        (o : Option Pc)
        → t.holder ≡ o
        → EndsAs o t
        → ((pc : Pc) × (u : Plugin) × (t.holder ≡ some pc) × Runs t pc u)
          ⊎ ((t.holder ≡ none)
              × HasStopped t.session_path t.config_path t.tasks t.state (t.quit || t.persist))
    stage none e done = inr (e, done)
    stage (some pc) e at = let (u, r) = progress t pc in inl (pc, u, e, r)
