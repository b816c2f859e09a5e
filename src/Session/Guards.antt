-- ===== src/Session/Guards.antt =====
-- What the two compare-exchange guards promise, under every interleaving of the tasks.
use nm_openvpn.Base.{Bool, List, [], arith, false, refl, true, ℕ, ◌+◌, ◌∷◌, ◌≡◌, ◌≤◌}
use nm_openvpn.Session.Steps.{
  failure_won, ip4_won, ip4_released, Signal, ip4_config, failure, Shared, Pc, before,
  emitting_failure, emitting_ip4, releasing_ip4, Task, status_listener, attention_listener,
  status_poller, Step, TaskStep, listener_runs, listener_event, attention_runs, attention_event,
  poller_runs, poller_event, TasksStep, here, there, Reach, start, spawn_listener, spawn_attention,
  spawn_poller, request_disconnect, abort_all, other_state, runs,
}
use nm_openvpn.Session.Code.{Code, next_event}
use nm_openvpn.Session.Tasks.{listener, attention, poller}
use nm_openvpn.Status.{NmVpnServiceState}

abbrev pub bit : Bool → ℕ
bit true = 1
bit false = 0

-- The signals of each kind that have been sent.
unfoldable pub failures : List Signal → ℕ
failures [] = 0
failures (failure r ∷ xs) = failures xs + 1
failures (_ ∷ xs) = failures xs

unfoldable pub ip4_configs : List Signal → ℕ
ip4_configs [] = 0
ip4_configs (ip4_config ∷ xs) = ip4_configs xs + 1
ip4_configs (_ ∷ xs) = ip4_configs xs

-- A task that has won a guard and has not finished with it.
abbrev owes_failure : Pc → ℕ
owes_failure (emitting_failure r k) = 1
owes_failure _ = 0

abbrev pub in_ip4 : Pc → ℕ
in_ip4 (emitting_ip4 a b) = 1
in_ip4 (releasing_ip4 b) = 1
in_ip4 _ = 0

abbrev pub pc_of : Task → Pc
pc_of (status_listener pc) = pc
pc_of (attention_listener pc) = pc
pc_of (status_poller p pc) = pc

unfoldable pub total : (Pc → ℕ) → List Task → ℕ
total w [] = 0
total w (t ∷ ts) = w (pc_of t) + total w ts

-- The tasks inside `ip4::emit`, or about to clear its flag.
abbrev pub publishing : List Task → ℕ
publishing = total in_ip4

-- What one step adds to the signals and the owners, it adds to the flag.
Step-failures :
    {s s' : Shared} {pc pc' : Pc}
    → Step s pc s' pc'
    → failures s'.sent + owes_failure pc' + bit s.failure_emitted
      ≤ failures s.sent + owes_failure pc + bit s'.failure_emitted
unfolding failures
Step-failures (failure_won e) = rw e (omega arith)
Step-failures _ = omega arith

Step-ip4 :
    {s s' : Shared} {pc pc' : Pc}
    → Step s pc s' pc'
    → ip4_configs s'.sent + in_ip4 pc' + bit s.ip4_emitted
      ≤ ip4_configs s.sent + in_ip4 pc + bit s'.ip4_emitted
unfolding ip4_configs
Step-ip4 (ip4_won e) = rw e (omega arith)
Step-ip4 {s} ip4_released = bit_le s.ip4_emitted
  where
    bit_le : (b : Bool) → ip4_configs s.sent + 0 + bit b ≤ ip4_configs s.sent + 1 + 0
    bit_le true = omega arith
    bit_le false = omega arith
Step-ip4 _ = omega arith

-- A kind of signal, the tasks that owe one, and the flag that guards it; `step` says that a step
-- which adds to the signals or the owners sets the flag.
record Guard : Type 1 where
  count : List Signal → ℕ
  owes : Pc → ℕ
  flag : Shared → Bool
  step :
      (s s' : Shared) (pc pc' : Pc)
      → Step s pc s' pc'
      → count s'.sent + owes pc' + bit (flag s) ≤ count s.sent + owes pc + bit (flag s')
  calm : (c : Code) → owes (before c) ≡ 0

module _ (g : Guard) where
  TaskStep-le :
      {s s' : Shared} {t t' : Task}
      → TaskStep s t s' t'
      → g.count s'.sent + g.owes (pc_of t') + bit (g.flag s)
        ≤ g.count s.sent + g.owes (pc_of t) + bit (g.flag s')
  TaskStep-le (listener_runs x) = g.step _ _ _ _ x
  TaskStep-le (attention_runs x) = g.step _ _ _ _ x
  TaskStep-le (poller_runs x) = g.step _ _ _ _ x
  TaskStep-le (listener_event major minor) =
      omega (arith, g.calm next_event, g.calm (listener major minor))
  TaskStep-le (attention_event handled) =
      omega (arith, g.calm next_event, g.calm (attention handled))
  TaskStep-le (poller_event {p} poll) = omega (arith, g.calm next_event, g.calm (poller p poll).1)

  TasksStep-le :
      {s s' : Shared} {ts ts' : List Task}
      → TasksStep s ts s' ts'
      → g.count s'.sent + total g.owes ts' + bit (g.flag s)
        ≤ g.count s.sent + total g.owes ts + bit (g.flag s')
  unfolding total
  TasksStep-le (here x) = omega (arith, TaskStep-le x)
  TasksStep-le (there x) = omega (arith, TasksStep-le x)

  -- The signals sent and owed are at most one, and none before the flag is set.
  Reach-le :
      {s : Shared} {ts : List Task}
      → g.count [] ≡ 0
      → ((s : Shared) (st : NmVpnServiceState) → g.flag (record s { state = st }) ≡ g.flag s)
      → ((s : Shared) (d : Bool) → g.flag (record s { disconnect_requested = d }) ≡ g.flag s)
      → Reach s ts
      → g.count s.sent + total g.owes ts ≤ bit (g.flag s)
  unfolding total
  Reach-le z p q (start st) = omega (arith, z)
  Reach-le z p q (spawn_listener r) = omega (arith, Reach-le z p q r, g.calm next_event)
  Reach-le z p q (spawn_attention r) = omega (arith, Reach-le z p q r, g.calm next_event)
  Reach-le z p q (spawn_poller r) = omega (arith, Reach-le z p q r, g.calm next_event)
  Reach-le z p q (request_disconnect {s} r) = rw (q s true) (Reach-le z p q r)
  Reach-le z p q (abort_all r) = omega (arith, Reach-le z p q r)
  Reach-le z p q (other_state {s} new r) = rw (p s new) (Reach-le z p q r)
  Reach-le z p q (runs r x) = omega (arith, TasksStep-le x, Reach-le z p q r)

failure_guard : Guard
failure_guard = record {
  count = failures;
  owes = owes_failure;
  flag = λ s. s.failure_emitted;
  step = λ s s' pc pc' x. Step-failures x;
  calm = λ c. refl;
}

ip4_guard : Guard
ip4_guard = record {
  count = ip4_configs;
  owes = in_ip4;
  flag = λ s. s.ip4_emitted;
  step = λ s s' pc pc' x. Step-ip4 x;
  calm = λ c. refl;
}

-- However the tasks of a session are interleaved, spawned and aborted, they send NetworkManager at
-- most one Failure, and none as long as `failure_emitted` is clear.
pub failures-le :
    {s : Shared} {ts : List Task} → Reach s ts → failures s.sent ≤ bit s.failure_emitted
unfolding failure_guard failures
failures-le r = omega (arith, Reach-le failure_guard refl (λ s st. refl) (λ s d. refl) r)

-- However the tasks are interleaved, the Ip4Config signals that they have sent and the tasks that
-- are inside `ip4::emit` (or about to clear its flag) are at most one together, and none as long
-- as `ip4_emitted` is clear.
pub ip4_configs-publishing-le :
    {s : Shared} {ts : List Task}
    → Reach s ts
    → ip4_configs s.sent + publishing ts ≤ bit s.ip4_emitted
unfolding ip4_guard ip4_configs
ip4_configs-publishing-le r = Reach-le ip4_guard refl (λ s st. refl) (λ s d. refl) r
