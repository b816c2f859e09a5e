-- ===== src/Session/Tasks.antt =====
-- `spawn_status_listener`, `spawn_status_poller` and `spawn_attention_listener`: what each does on
-- an event. An emitter that cannot be built is not modelled.
use nm_openvpn.Base.{
  Bool, Option, Str, false, if◌then◌else◌, leb, ltb, none, not, some, str, true, ℕ, ◌&&◌, ◌+◌,
}
use nm_openvpn.Text.{starts_with}
use nm_openvpn.Status.{
  NmVpnServiceState, started, stopped, NmVpnPluginFailure, login_failed, connect_failed,
  bad_ip_config, Status, from_wire, to_nm_state, failure_reason,
}
use nm_openvpn.Session.Code.{
  Code, break_loop, next_event, set_state, failure_once, publish_ip4, if_disconnecting,
}

-- `set_state_via(Stopped)`, `emit_failure_once`, `break`
unfoldable pub fail_with : NmVpnPluginFailure → Code
fail_with reason = set_state stopped (failure_once reason break_loop)

-- The listener's `match target`.
unfoldable pub listener_on : Status → NmVpnServiceState → Code
listener_on status started =
    publish_ip4 (set_state started next_event) (fail_with bad_ip_config)
      (set_state started next_event)
listener_on status stopped =
    set_state stopped
      (if_disconnecting break_loop (failure_once (failure_reason status) break_loop))
listener_on status other = set_state other next_event

unfoldable pub listener_target : Status → Option NmVpnServiceState → Code
listener_target status none = next_event
listener_target status (some target) = listener_on status target

unfoldable pub listener_status : Option Status → Code
listener_status none = next_event
listener_status (some status) = listener_target status (to_nm_state status)

-- One StatusChange signal.
unfoldable pub listener : ℕ → ℕ → Code
listener major minor = listener_status (from_wire major minor)

-- The poller's local variables: its `ip4_emitted`, the rounds so far and the failed reads in a row.
pub record Poller : Type 0 where
  pub past_started : Bool
  pub ticks : ℕ
  pub errs : ℕ

unfoldable pub max_ticks_pre_started : ℕ
max_ticks_pre_started = 100

unfoldable pub post_started_err_budget : ℕ
post_started_err_budget = 6

-- What one round reads: the status pair and the device name, each of which may fail.
pub record Poll : Type 0 where
  pub status : Option (ℕ × ℕ)
  pub device : Option Str

-- `Some(failure_reason)`, or a transport failure
unfoldable pub reason_of : Option Status → NmVpnPluginFailure
reason_of none = connect_failed
reason_of (some status) = failure_reason status

-- The device name counts as "started" where it begins with `tun`.
unfoldable pub device_target : Option Str → Option NmVpnServiceState → Option NmVpnServiceState
device_target none target = target
device_target (some dev) target = if starts_with (str "tun") dev then some started else target

unfoldable pub is_stopped : Option NmVpnServiceState → Bool
is_stopped (some stopped) = true
is_stopped _ = false

unfoldable pub poll_target : Bool → Option Str → Option NmVpnServiceState → Option NmVpnServiceState
poll_target past_started device target =
    if not past_started && not (is_stopped target) then device_target device target else target

-- The poller's `match target`, with the local variables for the next round.
unfoldable pub poller_on : Poller → Option Status → Option NmVpnServiceState → Poller × Code
poller_on p status none = (p, next_event)
poller_on p status (some started) =
    if not p.past_started
    then (
      record { past_started = true; ticks = 0; errs = p.errs },
      publish_ip4 (set_state started next_event) (fail_with bad_ip_config) next_event,
    )
    else (p, next_event)
poller_on p status (some stopped) = (
  p,
  set_state stopped (if_disconnecting break_loop (failure_once (reason_of status) break_loop)),
)
poller_on p status (some other) =
    (p, if not p.past_started then set_state other next_event else next_event)

unfoldable pub wire_status : ℕ × ℕ → Option Status
wire_status (major, minor) = from_wire major minor

unfoldable pub nm_target : Option Status → Option NmVpnServiceState
nm_target none = none
nm_target (some status) = to_nm_state status

unfoldable pub poller_read : Poller → Poll → Poller × Code
poller_read p poll = elim poll.status [
  | some pair ↦
      let status = wire_status pair in
      poller_on (record p { errs = 0 }) status
        (poll_target p.past_started poll.device (nm_target status))
  | none ↦
      if p.past_started
      then if ltb (p.errs + 1) post_started_err_budget
        then (record p { errs = p.errs + 1 }, next_event)
        else (record p { errs = p.errs + 1 }, fail_with connect_failed)
      else (p, next_event)
]

-- One round of the poller.
unfoldable pub poller : Poller → Poll → Poller × Code
poller p poll =
    let p' = record p { ticks = p.ticks + 1 } in
    if not p'.past_started && leb max_ticks_pre_started p'.ticks
    then (p', fail_with connect_failed)
    else poller_read p' poll

-- One AttentionRequired signal; the flag says whether `handle_attention` succeeded.
unfoldable pub attention : Bool → Code
attention true = next_event
attention false = if_disconnecting break_loop (failure_once login_failed break_loop)
