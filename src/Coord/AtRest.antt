-- ===== src/Coord/AtRest.antt =====
-- What holds when no handler works, and when a Disconnect is about to report Stopped.
use nm_openvpn.Base.{arith, none, refl, ◌+◌, ◌≡◌}
use nm_openvpn.Coord.Defs.{Plugin}
use nm_openvpn.Coord.Steps.{
  bit, Step, Reach, enter_connect, flag_disconnect, enter_disconnect, runs, start, next,
}
use nm_openvpn.Coord.Tidy.{Tidy, tidy, Runs-Tidy}

Step-Tidy : {s s' : Plugin} → Step s s' → Tidy s.holder s → Tidy s'.holder s'
Step-Tidy (enter_connect h) t =
    let u = (rw h at t) in tidy u.sessions u.configs u.together u.quiet tt
Step-Tidy flag_disconnect t = tidy t.sessions t.configs t.together t.quiet t.known
Step-Tidy (enter_disconnect h _) t =
    let u = (rw h at t) in tidy u.sessions u.configs u.together u.quiet tt
Step-Tidy (runs h r) t =
    let u = (rw h at t) in Runs-Tidy r u.sessions u.configs u.together u.quiet u.known

pub Reach-Tidy : {s : Plugin} → Reach s → Tidy s.holder s
Reach-Tidy (start _) = tidy refl refl refl refl tt
Reach-Tidy (next r h) = Step-Tidy h (Reach-Tidy r)

-- In every state that the handlers can reach, if no handler holds the coordinator's lock, then, by
-- number, the sessions that NewTunnel has made, also those whose reply was lost, are the one on
-- record, if there is one, those whose Disconnect was answered, those whose Disconnect has failed
-- twice, and those made by a NewTunnel that failed; the configs that Import has made are the one on
-- record, if there is one, those that were asked to be removed, and those made by an Import that
-- failed; and the two paths are on record together.
pub unlocked-tidy :
    {s : Plugin}
    → Reach s
    → s.holder ≡ none
    → (s.made ≡ bit s.session_path + s.ended + s.orphans + s.lost)
      × (s.imported ≡ bit s.session_path + s.removed + s.unseen)
      × (s.config_path ≡ s.session_path)
unlocked-tidy {s} r h =
    let t0 = Reach-Tidy r in
    let t = (rw h at t0) in
    let e = t.sessions in
    let f = (rw t.together at t.configs) in (omega arith, omega arith, t.together)
