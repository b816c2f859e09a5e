-- ===== src/Coord/Refines.antt =====
-- The life of a session, which the handlers implement.
use nm_openvpn.Coord.AtRest.{Reach-Tidy}
use nm_openvpn.Base.{Bool, Option, arith, false, inl, inr, none, refl, some, true, ℕ, ◌+◌, ◌≡◌, ◌⊎◌}
use nm_openvpn.Coord.Tidy.{Known, Knows, held, session_at}
use nm_openvpn.Coord.Defs.{
  Pc, stash, hang_up, hang_up_again, end_session, end_session_again, Plugin,
}
use nm_openvpn.Coord.Steps.{
  CleanupRuns, ConnectRuns, DisconnectRuns, Reach, Runs, Step, accepted, bit, cleaned, cleared_flag,
  config_dropped, config_ended, connect_failed, connected, early_clear, early_teardown, end_failed,
  end_failed_twice, end_done, end_done_again, enter_connect, enter_disconnect, error_deferred,
  error_reported, flag_disconnect, hang_up_failed, hang_up_failed_twice, hung_up, hung_up_again,
  import_reply_lost, tunnel_reply_lost, import_done, import_failed, in_cleanup, in_connect,
  in_disconnect, in_report, last_clear, last_teardown, left, left_removed, listening, next,
  not_ready, polling, profile_built, profile_failed, ready, refused, runs, second_clear,
  second_teardown, stashed, stopped_session, taken_none, taken_session, tunnel_failed, tunnel_made,
}

-- There is no session; one was made and is not yet on record; it is on record; it was taken off the
-- record and is being end_done.
pub data Phase : Type 0 where
  down opened recorded closing : Phase

-- The one cycle that a session goes through. Its end may have failed twice: then openvpn3 keeps it.
pub data Life : Phase → Phase → Type 0 where
  make : Life down opened
  keep : Life opened recorded
  take : Life recorded closing
  finish : Life closing down

-- What is seen of the plugin: where the handler stands with a session in its hands, and else
-- whether one is on record.
abbrev pub on_record : Bool → Phase
on_record true = recorded
on_record false = down

abbrev pub at_pc : Pc → Bool → Phase
at_pc stash b = opened
at_pc (hang_up c) b = closing
at_pc (hang_up_again c) b = closing
at_pc (end_session c) b = closing
at_pc (end_session_again c) b = closing
at_pc _ b = on_record b

abbrev pub phase_of : Option Pc → Bool → Phase
phase_of none b = on_record b
phase_of (some pc) b = at_pc pc b

abbrev pub phase : Plugin → Phase
phase s = phase_of s.holder s.session_path

-- A step that changes nothing, or one step of the cycle.
abbrev pub Moves : Phase → Phase → Type 0
Moves p q = (p ≡ q) ⊎ Life p q

ConnectRuns-Moves :
    {s s' : Plugin} {pc : Pc}
    → ConnectRuns s pc s'
    → Knows pc s.session_path
    → Moves (at_pc pc s.session_path) (phase s')
ConnectRuns-Moves (refused p) k = inl refl
ConnectRuns-Moves (accepted p) k = inl refl
ConnectRuns-Moves cleared_flag k = inl refl
ConnectRuns-Moves profile_failed k = inl refl
ConnectRuns-Moves profile_built k = inl refl
ConnectRuns-Moves (early_teardown p) k = inl refl
ConnectRuns-Moves (early_clear p) k = inl refl
ConnectRuns-Moves import_failed k = inl refl
ConnectRuns-Moves import_reply_lost k = inl refl
ConnectRuns-Moves import_done k = inl refl
ConnectRuns-Moves tunnel_failed k = inl refl
ConnectRuns-Moves tunnel_made k = rw k (inr make)
ConnectRuns-Moves tunnel_reply_lost k = inl refl
ConnectRuns-Moves config_dropped k = inl refl
ConnectRuns-Moves stashed k = inr keep
ConnectRuns-Moves (second_teardown p) k = inl refl
ConnectRuns-Moves (second_clear p) k = inl refl
ConnectRuns-Moves not_ready k = inl refl
ConnectRuns-Moves ready k = inl refl
ConnectRuns-Moves listening k = inl refl
ConnectRuns-Moves (last_teardown p) k = inl refl
ConnectRuns-Moves (last_clear p) k = inl refl
ConnectRuns-Moves connect_failed k = inl refl
ConnectRuns-Moves connected k = inl refl
ConnectRuns-Moves polling k = inl refl

CleanupRuns-Moves :
    {s s' : Plugin} {pc : Pc}
    → CleanupRuns s pc s'
    → Knows pc s.session_path
    → Moves (at_pc pc s.session_path) (phase s')
CleanupRuns-Moves cleaned k = rw k (inr take)
CleanupRuns-Moves hung_up k = rw k (inr finish)
CleanupRuns-Moves hang_up_failed k = inl refl
CleanupRuns-Moves hung_up_again k = rw k (inr finish)
CleanupRuns-Moves hang_up_failed_twice k = rw k (inr finish)
CleanupRuns-Moves left_removed k = inl refl

DisconnectRuns-Moves :
    {s s' : Plugin} {pc : Pc}
    → DisconnectRuns s pc s'
    → Knows pc s.session_path
    → Moves (at_pc pc s.session_path) (phase s')
DisconnectRuns-Moves (taken_session p) k = rw p (inr take)
DisconnectRuns-Moves (taken_none p) k = rw p (inl refl)
DisconnectRuns-Moves end_done k = rw k (inr finish)
DisconnectRuns-Moves end_failed k = inl refl
DisconnectRuns-Moves end_done_again k = rw k (inr finish)
DisconnectRuns-Moves end_failed_twice k = rw k (inr finish)
DisconnectRuns-Moves config_ended k = inl refl
DisconnectRuns-Moves stopped_session k = inl refl

Runs-Moves :
    {s s' : Plugin} {pc : Pc}
    → Runs s pc s'
    → Knows pc s.session_path
    → Moves (at_pc pc s.session_path) (phase s')
Runs-Moves (in_connect r) k = ConnectRuns-Moves r k
Runs-Moves (in_cleanup r) k = CleanupRuns-Moves r k
Runs-Moves (in_report (error_deferred p)) k = inl refl
Runs-Moves (in_report (error_reported p)) k = inl refl
Runs-Moves (in_disconnect r) k = DisconnectRuns-Moves r k
Runs-Moves left k = inl refl

-- The sessions of openvpn3 that the phase stands for.
abbrev pub sessions_in : Phase → ℕ
sessions_in down = 0
sessions_in opened = 1
sessions_in recorded = 1
sessions_in closing = 1

sessions_held :
    (o : Option Pc) (b : Bool) → Known o b → sessions_in (phase_of o b) ≡ bit b + held session_at o
sessions_held none true k = refl
sessions_held none false k = refl
sessions_held (some pc) b k = at pc b k
  where
    at : (pc : Pc) (b : Bool) → Knows pc b → sessions_in (at_pc pc b) ≡ bit b + session_at pc
    at stash b k = rw k refl
    at (hang_up c) b k = rw k refl
    at (hang_up_again c) b k = rw k refl
    at (end_session c) b k = rw k refl
    at (end_session_again c) b k = rw k refl
    at _ true k = refl
    at _ false k = refl

-- In every interleaving of the handlers, each step leaves the phase of the session as it is or takes
-- it one step further on its cycle; so no new session is made by a NewTunnel that succeeds before
-- the last one was taken off the record and its end was tried. And, by number, apart from the
-- sessions whose Disconnect was answered or failed twice, and from those of a NewTunnel that failed,
-- the ones that were made are the one that the phase stands for, or none.
pub Step-Moves :
    {s s' : Plugin}
    → Reach s
    → Step s s'
    → Moves (phase s) (phase s')
      × (s'.made ≡ sessions_in (phase s') + s'.ended + s'.orphans + s'.lost)
Step-Moves {s} {s'} r h =
    let after = Reach-Tidy (next r h) in
    let made = after.sessions in
    let held = sessions_held s'.holder s'.session_path after.known in (moves h, omega arith)
  where
    moves : {s' : Plugin} → Step s s' → Moves (phase s) (phase s')
    moves (enter_connect free) = rw free (inl refl)
    moves flag_disconnect = inl refl
    moves (enter_disconnect free _) = rw free (inl refl)
    moves (runs {pc} h r') =
        let before = (rw h at (Reach-Tidy r).known) in rw h (Runs-Moves r' before)
