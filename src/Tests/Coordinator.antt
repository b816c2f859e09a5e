-- ===== src/Tests/Coordinator.antt =====
-- Applications of the results on how the handlers share the lock and the session.
use nm_openvpn.Base.{◌||◌, ◌⊎◌, false, none, refl, some, true, ◌+◌, ◌≡◌, ◌≤◌}
use nm_openvpn.Coord.Defs.{
  Pc, Plugin, check_session, build_profile, end_session_again, take_session,
}
use nm_openvpn.Coord.Steps.{
  accepted, cleared_flag, enter_connect, fresh, goto, in_connect, start, Runs, end_failed,
  in_disconnect, taken_session,
}
use nm_openvpn.Coord.Release.{to_go, Working, idle, flagged, worked, Working-le}
use nm_openvpn.Coord.Stopping.{HasStopped, Working-HasStopped}
use nm_openvpn.Coord.Refines.{phase, Moves, sessions_in, Step-Moves}

-- A Connect has just got the lock.
abbrev entered : Plugin
entered = goto check_session (fresh true)

-- It passes the gate, a Disconnect raises the flag, and the Connect clears it.
abbrev raced : Plugin
raced = record (fresh true) { holder = some build_profile; waiting = 1 }

race : Working 2 entered raced
race =
    worked (flagged (worked idle refl (in_connect (accepted refl)))) refl (in_connect cleared_flag)

Working-le_example : 2 + to_go raced.holder ≤ to_go entered.holder
Working-le_example = Working-le race

-- A Disconnect ends the session, where the first call of openvpn3 fails.
abbrev let_in : Plugin
let_in = record (fresh false) {
  holder = some take_session;
  session_path = true;
  config_path = true;
  tasks = 4;
  teardown = true;
}

abbrev half_way : Plugin
half_way = record let_in {
  holder = some (end_session_again true);
  session_path = false;
  config_path = false;
  tasks = 0;
}

half_done : Working 2 let_in half_way
half_done =
    worked (worked idle refl (in_disconnect (taken_session refl))) refl (in_disconnect end_failed)

Working-HasStopped_example :
    (2 ≤ 6)
    × (((pc : Pc) × (u : Plugin) × (half_way.holder ≡ some pc) × Runs half_way pc u)
        ⊎ ((half_way.holder ≡ none)
            × HasStopped half_way.session_path half_way.config_path half_way.tasks half_way.state
                (half_way.quit || half_way.persist)))
Working-HasStopped_example = Working-HasStopped half_done refl

Step-Moves_example :
    Moves (phase (fresh true)) (phase entered)
    × (entered.made ≡ sessions_in (phase entered) + entered.ended + entered.orphans + entered.lost)
Step-Moves_example = Step-Moves (start true) (enter_connect refl)
