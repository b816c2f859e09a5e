-- ===== src/Tests/Sessions.antt =====
-- Applications of the results on the tasks of a session and on the handlers.
use nm_openvpn.Base.{List, [], arith, false, none, refl, some, true, ◌+◌, ◌<◌, ◌∷◌, ◌≡◌, ◌≢◌, ◌≤◌}
use nm_openvpn.Session.Tasks.{
  device_target, is_stopped, max_ticks_pre_started, nm_target, poll_target, poller_on, poller_read,
  wire_status, Poll, Poller, listener, listener_on, listener_status, listener_target, poller,
}
use nm_openvpn.Session.PollerLaws.{may_loop, waits-lt, waits, unread, length}
use nm_openvpn.Coord.Defs.{Plugin, set_stopped}
use nm_openvpn.Session.Code.{break_loop, next_event, set_state}
use nm_openvpn.Coord.Steps.{
  in_connect, cleared_flag, early_clear, enter_connect, import_done, last_clear, profile_built,
  second_clear, tunnel_made, accepted, connected, ready, left, listening, polling, stashed,
}
use nm_openvpn.Status.{
  connection_from_u32, failure_reason, from_wire, login_failed, major_from_u32, to_nm_state,
  with_major, stopped, starting, started,
}
use nm_openvpn.Session.Guards.{
  failures-le, ip4_configs-publishing-le, failures, ip4_configs, bit, publishing,
}
use nm_openvpn.Coord.AtRest.{unlocked-tidy}
use nm_openvpn.Session.Steps as S
use nm_openvpn.Session.Steps.{
  Shared, Task, status_listener, here, listener_event, listener_runs, state_new, state_sent,
  not_disconnecting, failure_won, failure_sent, ip4_won, ip4_sent, spawn_listener, before, failure,
  config, ip4_config, state_changed,
}
use nm_openvpn.Session.PollerLaws as P
use nm_openvpn.Coord.Steps as C

abbrev failed_session : Shared
failed_session = record {
  state = stopped;
  ip4_emitted = false;
  disconnect_requested = false;
  failure_emitted = true;
  sent = failure login_failed ∷ state_changed stopped ∷ [];
}

abbrev over : Task
over = status_listener (before break_loop)

starting≢stopped : starting ≢ stopped
starting≢stopped = ground arith

-- The listener sees a refused login.
failed_run : S.Reach failed_session (over ∷ [])
unfolding listener listener_status listener_target listener_on from_wire with_major major_from_u32
    connection_from_u32 to_nm_state failure_reason
failed_run =
    let r = spawn_listener (S.start starting) in
    let r = S.runs r (here (listener_event 2 11)) in
    let r = S.runs r (here (listener_runs (state_new starting≢stopped))) in
    let r = S.runs r (here (listener_runs state_sent)) in
    let r = S.runs r (here (listener_runs (not_disconnecting refl))) in
    let r = S.runs r (here (listener_runs (failure_won refl))) in
    S.runs r (here (listener_runs failure_sent))

failures-le_example : failures failed_session.sent ≤ bit true
failures-le_example = failures-le failed_run

abbrev published : Shared
published = record {
  state = starting;
  ip4_emitted = true;
  disconnect_requested = false;
  failure_emitted = false;
  sent = ip4_config ∷ config ∷ [];
}

abbrev after_ip4 : Task
after_ip4 = status_listener (before (set_state started next_event))

-- The listener sees the connection.
published_run : S.Reach published (after_ip4 ∷ [])
unfolding listener listener_status listener_target listener_on from_wire with_major major_from_u32
    connection_from_u32 to_nm_state
published_run =
    let r = spawn_listener (S.start starting) in
    let r = S.runs r (here (listener_event 2 7)) in
    let r = S.runs r (here (listener_runs (ip4_won refl))) in
    S.runs r (here (listener_runs ip4_sent))

ip4_configs-publishing-le_example :
    ip4_configs published.sent + publishing (after_ip4 ∷ []) ≤ bit true
ip4_configs-publishing-le_example = ip4_configs-publishing-le published_run

abbrev two_polls : List Poll
two_polls =
    record { status = some (2, 6); device = none } ∷ record { status = none; device = none } ∷ []

abbrev two_rounds : Poller
two_rounds = record { past_started = false; ticks = 2; errs = 0 }

two_polls_lem : waits P.fresh two_polls ≡ some two_rounds
unfolding waits P.may_loop poller max_ticks_pre_started poller_read poller_on poll_target is_stopped
    nm_target wire_status from_wire with_major major_from_u32 connection_from_u32 to_nm_state
    device_target
two_polls_lem = refl

waits-lt_example : length two_polls < 100
waits-lt_example = waits-lt two_polls two_rounds two_polls_lem

abbrev settled : Poller
settled = record { past_started = true; ticks = 4; errs = 0 }

-- The plugin with a session that is up.
abbrev up : Plugin
up = record {
  teardown = false;
  holder = none;
  waiting = 0;
  session_path = true;
  config_path = true;
  tasks = 4;
  state = starting;
  made = 1;
  ended = 0;
  orphans = 0;
  lost = 0;
  imported = 1;
  removed = 0;
  unseen = 0;
  failures = 0;
  quit = false;
  persist = true;
}

up_run : C.Reach up
up_run =
    let r = C.next (C.start true) (enter_connect refl) in
    let r = C.next r (C.runs refl (in_connect (accepted refl))) in
    let r = C.next r (C.runs refl (in_connect cleared_flag)) in
    let r = C.next r (C.runs refl (in_connect profile_built)) in
    let r = C.next r (C.runs refl (in_connect (early_clear refl))) in
    let r = C.next r (C.runs refl (in_connect import_done)) in
    let r = C.next r (C.runs refl (in_connect tunnel_made)) in
    let r = C.next r (C.runs refl (in_connect stashed)) in
    let r = C.next r (C.runs refl (in_connect (second_clear refl))) in
    let r = C.next r (C.runs refl (in_connect ready)) in
    let r = C.next r (C.runs refl (in_connect listening)) in
    let r = C.next r (C.runs refl (in_connect (last_clear refl))) in
    let r = C.next r (C.runs refl (in_connect connected)) in
    let r = C.next r (C.runs refl (in_connect polling)) in C.next r (C.runs refl left)

unlocked-tidy_example :
    (up.made ≡ C.bit up.session_path + up.ended + up.orphans + up.lost)
    × (up.imported ≡ C.bit up.session_path + up.removed + up.unseen)
    × (up.config_path ≡ up.session_path)
unlocked-tidy_example = unlocked-tidy up_run refl

-- The same plugin when a Disconnect has ended the session.
abbrev ending : Plugin
ending = record up {
  teardown = true;
  holder = some set_stopped;
  session_path = false;
  config_path = false;
  tasks = 0;
  ended = 1;
  removed = 1;
}
