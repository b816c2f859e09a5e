-- ===== src/Session/Steps.antt =====
-- The atomic steps of the tasks, interleaved in any order.
use nm_openvpn.Base.{Bool, List, [], false, true, ℕ, ◌∷◌, ◌≡◌, ◌≢◌}
use nm_openvpn.Status.{NmVpnServiceState, NmVpnPluginFailure}
use nm_openvpn.Session.Code.{
  Code, next_event, set_state, failure_once, publish_ip4, if_disconnecting,
}
use nm_openvpn.Session.Tasks.{listener, Poller, Poll, poller, attention}

-- The signals to NetworkManager.
pub data Signal : Type 0 where
  state_changed : NmVpnServiceState → Signal
  config ip4_config : Signal
  failure : NmVpnPluginFailure → Signal

-- What the tasks of one session share, with the signals sent so far, the last one first.
pub record Shared : Type 0 where
  pub state : NmVpnServiceState
  pub ip4_emitted : Bool
  pub disconnect_requested : Bool
  pub failure_emitted : Bool
  pub sent : List Signal

-- Where a task stands: before some code, or inside one of its constructs.
pub data Pc : Type 0 where
  before : Code → Pc
  -- `set_state_via` has changed the state and is about to emit the signal
  emitting_state : NmVpnServiceState → Code → Pc
  -- `emit_failure_once` has won
  emitting_failure : NmVpnPluginFailure → Code → Pc
  -- the compare-exchange has won; inside `ip4::emit`
  emitting_ip4 : (published failed : Code) → Pc
  -- `ip4::emit` has failed, and the flag is about to be cleared
  releasing_ip4 : (failed : Code) → Pc

pub data Task : Type 0 where
  status_listener attention_listener : Pc → Task
  status_poller : Poller → Pc → Task

abbrev send : Signal → Shared → Shared
send x s = record s { sent = x ∷ s.sent }

-- One step of the code of a task. A signal that cannot be sent is lost, and nothing else changes;
-- of the two signals of `ip4::emit` the first may go out alone.
pub data Step (s : Shared) : Pc → Shared → Pc → Type 0 where
  state_same :
      {new : NmVpnServiceState} {k : Code}
      → s.state ≡ new
      → Step s (before (set_state new k)) s (before k)
  state_new :
      {new : NmVpnServiceState} {k : Code}
      → s.state ≢ new
      → Step s (before (set_state new k)) (record s { state = new }) (emitting_state new k)
  state_sent :
      {new : NmVpnServiceState} {k : Code}
      → Step s (emitting_state new k) (send (state_changed new) s) (before k)
  state_lost : {new : NmVpnServiceState} {k : Code} → Step s (emitting_state new k) s (before k)
  failure_won :
      {r : NmVpnPluginFailure} {k : Code}
      → s.failure_emitted ≡ false
      → Step s
          (before (failure_once r k))
          (record s { failure_emitted = true })
          (emitting_failure r k)
  failure_lost_race :
      {r : NmVpnPluginFailure} {k : Code}
      → s.failure_emitted ≡ true
      → Step s (before (failure_once r k)) s (before k)
  failure_sent :
      {r : NmVpnPluginFailure} {k : Code}
      → Step s (emitting_failure r k) (send (failure r) s) (before k)
  failure_lost : {r : NmVpnPluginFailure} {k : Code} → Step s (emitting_failure r k) s (before k)
  ip4_won :
      {a b c : Code}
      → s.ip4_emitted ≡ false
      → Step s (before (publish_ip4 a b c)) (record s { ip4_emitted = true }) (emitting_ip4 a b)
  ip4_lost_race :
      {a b c : Code} → s.ip4_emitted ≡ true → Step s (before (publish_ip4 a b c)) s (before c)
  ip4_sent : {a b : Code} → Step s (emitting_ip4 a b) (send ip4_config (send config s)) (before a)
  ip4_failed : {a b : Code} → Step s (emitting_ip4 a b) s (releasing_ip4 b)
  ip4_half_sent : {a b : Code} → Step s (emitting_ip4 a b) (send config s) (releasing_ip4 b)
  ip4_released : {b : Code} → Step s (releasing_ip4 b) (record s { ip4_emitted = false }) (before b)
  disconnecting :
      {a b : Code}
      → s.disconnect_requested ≡ true
      → Step s (before (if_disconnecting a b)) s (before a)
  not_disconnecting :
      {a b : Code}
      → s.disconnect_requested ≡ false
      → Step s (before (if_disconnecting a b)) s (before b)

-- One step of one task: of its code, or the next event of its loop.
pub data TaskStep (s : Shared) : Task → Shared → Task → Type 0 where
  listener_runs :
      {pc pc' : Pc} {s' : Shared}
      → Step s pc s' pc'
      → TaskStep s (status_listener pc) s' (status_listener pc')
  listener_event :
      (major minor : ℕ)
      → TaskStep s
          (status_listener (before next_event))
          s
          (status_listener (before (listener major minor)))
  attention_runs :
      {pc pc' : Pc} {s' : Shared}
      → Step s pc s' pc'
      → TaskStep s (attention_listener pc) s' (attention_listener pc')
  attention_event :
      (handled : Bool)
      → TaskStep s
          (attention_listener (before next_event))
          s
          (attention_listener (before (attention handled)))
  poller_runs :
      {p : Poller} {pc pc' : Pc} {s' : Shared}
      → Step s pc s' pc'
      → TaskStep s (status_poller p pc) s' (status_poller p pc')
  poller_event :
      {p : Poller} (poll : Poll)
      → TaskStep s
          (status_poller p (before next_event))
          s
          (status_poller (poller p poll).0 (before (poller p poll).1))

-- One of several tasks makes a step.
pub data TasksStep (s : Shared) : List Task → Shared → List Task → Type 0 where
  here :
      {t t' : Task} {ts : List Task} {s' : Shared}
      → TaskStep s t s' t'
      → TasksStep s (t ∷ ts) s' (t' ∷ ts)
  there :
      {t : Task} {ts ts' : List Task} {s' : Shared}
      → TasksStep s ts s' ts'
      → TasksStep s (t ∷ ts) s' (t ∷ ts')

-- A session from its start: tasks are spawned and aborted, NetworkManager asks for a teardown.
pub data Reach : Shared → List Task → Type 0 where
  start :
      (state : NmVpnServiceState)
      → Reach
          (record {
            state = state;
            ip4_emitted = false;
            disconnect_requested = false;
            failure_emitted = false;
            sent = [];
          })
          []
  spawn_listener :
      {s : Shared} {ts : List Task}
      → Reach s ts
      → Reach s (status_listener (before next_event) ∷ ts)
  spawn_attention :
      {s : Shared} {ts : List Task}
      → Reach s ts
      → Reach s (attention_listener (before next_event) ∷ ts)
  spawn_poller :
      {s : Shared} {ts : List Task}
      → Reach s ts
      → Reach s (
          status_poller (record { past_started = false; ticks = 0; errs = 0 }) (before next_event)
          ∷ ts)
  request_disconnect :
      {s : Shared} {ts : List Task}
      → Reach s ts
      → Reach (record s { disconnect_requested = true }) ts
  abort_all : {s : Shared} {ts : List Task} → Reach s ts → Reach s []
  other_state :
      {s : Shared} {ts : List Task} (new : NmVpnServiceState)
      → Reach s ts
      → Reach (record s { state = new }) ts
  runs : {s s' : Shared} {ts ts' : List Task} → Reach s ts → TasksStep s ts s' ts' → Reach s' ts'
