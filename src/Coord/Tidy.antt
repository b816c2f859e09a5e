-- ===== src/Coord/Tidy.antt =====
-- Every session and config that openvpn3 was made to have is accounted for: on record, or in the
-- hands of the handler that works, or ended, or lost.
use nm_openvpn.Base.{Bool, Option, arith, false, none, refl, some, true, ℕ, ◌+◌, ◌≡◌}
use nm_openvpn.Coord.Defs.{
  Pc, check_session, new_tunnel, stash, second_check, wait_ready, spawn_listeners, last_check,
  bring_up, spawn_poller, drop_config, cleanup, hang_up, hang_up_again, remove_left, report_error,
  take_session, end_session, end_session_again, end_config, leave, Plugin,
}
use nm_openvpn.Coord.Steps.{
  ConnectRuns, CleanupRuns, ReportRuns, DisconnectRuns, in_connect, in_cleanup, in_report,
  in_disconnect, Runs, bit, accepted, cleared_flag, profile_failed, profile_built, early_teardown,
  early_clear, import_failed, import_reply_lost, tunnel_reply_lost, import_done, tunnel_failed,
  tunnel_made, config_dropped, stashed, second_teardown, second_clear, not_ready, ready, listening,
  last_teardown, last_clear, connect_failed, connected, polling, cleaned, hung_up, hang_up_failed,
  hung_up_again, hang_up_failed_twice, left_removed, error_deferred, error_reported, taken_session,
  taken_none, end_done, end_failed, end_done_again, end_failed_twice, config_ended, stopped_session,
  left, refused,
}

-- The session that the handler holds, and the config.
abbrev pub session_at : Pc → ℕ
session_at stash = 1
session_at (hang_up c) = 1
session_at (hang_up_again c) = 1
session_at (end_session c) = 1
session_at (end_session_again c) = 1
session_at _ = 0

abbrev config_at : Pc → ℕ
config_at new_tunnel = 1
config_at stash = 1
config_at drop_config = 1
config_at (hang_up c) = bit c
config_at (hang_up_again c) = bit c
config_at (remove_left c) = bit c
config_at (end_session c) = bit c
config_at (end_session_again c) = bit c
config_at (end_config c) = bit c
config_at _ = 0

-- What the handler knows of the shared session.
abbrev pub Knows : Pc → Bool → Type 0
Knows check_session b = Unit
Knows report_error b = Unit
Knows take_session b = Unit
Knows leave b = Unit
Knows second_check b = b ≡ true
Knows wait_ready b = b ≡ true
Knows spawn_listeners b = b ≡ true
Knows last_check b = b ≡ true
Knows bring_up b = b ≡ true
Knows spawn_poller b = b ≡ true
Knows cleanup b = b ≡ true
Knows _ b = b ≡ false

abbrev pub held : (Pc → ℕ) → Option Pc → ℕ
held w none = 0
held w (some pc) = w pc

abbrev pub Known : Option Pc → Bool → Type 0
Known none b = Unit
Known (some pc) b = Knows pc b

-- Without a session on record no task is left.
abbrev Quiet : Bool → ℕ → Type 0
Quiet true n = Unit
Quiet false n = n ≡ 0

-- The plugin is tidy, with the lock in the hands of `o`.
pub record Tidy (o : Option Pc) (s : Plugin) : Type 0 where
  pub sessions : s.made ≡ bit s.session_path + held session_at o + s.ended + s.orphans + s.lost
  pub configs : s.imported ≡ bit s.config_path + held config_at o + s.removed + s.unseen
  pub together : s.config_path ≡ s.session_path
  pub quiet : Quiet s.session_path s.tasks
  pub known : Known o s.session_path

pub tidy :
    {o : Option Pc} {s : Plugin}
    → s.made ≡ bit s.session_path + held session_at o + s.ended + s.orphans + s.lost
    → s.imported ≡ bit s.config_path + held config_at o + s.removed + s.unseen
    → s.config_path ≡ s.session_path
    → Quiet s.session_path s.tasks
    → Known o s.session_path
    → Tidy o s
tidy a b c q k = record { sessions = a; configs = b; together = c; quiet = q; known = k }

ConnectRuns-Tidy :
    {s s' : Plugin} {pc : Pc}
    → ConnectRuns s pc s'
    → s.made ≡ bit s.session_path + session_at pc + s.ended + s.orphans + s.lost
    → s.imported ≡ bit s.config_path + config_at pc + s.removed + s.unseen
    → s.config_path ≡ s.session_path
    → Quiet s.session_path s.tasks
    → Knows pc s.session_path
    → Tidy s'.holder s'
ConnectRuns-Tidy (accepted p) a b c q k = tidy a b c q p
ConnectRuns-Tidy cleared_flag a b c q k = tidy a b c q k
ConnectRuns-Tidy profile_failed a b c q k = tidy a b c q tt
ConnectRuns-Tidy profile_built a b c q k = tidy a b c q k
ConnectRuns-Tidy (early_teardown p) a b c q k = tidy a b c q tt
ConnectRuns-Tidy (early_clear p) a b c q k = tidy a b c q k
ConnectRuns-Tidy import_failed a b c q k = tidy a b c q tt
ConnectRuns-Tidy import_reply_lost a b c q k = tidy (omega arith) (omega arith) c q tt
ConnectRuns-Tidy import_done a b c q k = tidy (omega arith) (omega arith) c q k
ConnectRuns-Tidy tunnel_failed a b c q k = tidy a b c q k
ConnectRuns-Tidy tunnel_made a b c q k = tidy (omega arith) (omega arith) c q k
ConnectRuns-Tidy tunnel_reply_lost a b c q k = tidy (omega arith) (omega arith) c q k
ConnectRuns-Tidy config_dropped a b c q k = tidy (omega arith) (omega arith) c q tt
ConnectRuns-Tidy stashed a b c q k =
    tidy (let e = (rw k at a) in omega arith) (let e = (rw (c, k) at b) in omega arith) refl tt refl
ConnectRuns-Tidy (second_teardown p) a b c q k = tidy a b c q k
ConnectRuns-Tidy (second_clear p) a b c q k = tidy a b c q k
ConnectRuns-Tidy not_ready a b c q k = tidy a b c q k
ConnectRuns-Tidy ready a b c q k = tidy a b c q k
ConnectRuns-Tidy listening a b c q k = tidy a b c (rw k tt) k
ConnectRuns-Tidy (last_teardown p) a b c q k = tidy a b c q k
ConnectRuns-Tidy (last_clear p) a b c q k = tidy a b c q k
ConnectRuns-Tidy connect_failed a b c q k = tidy a b c q k
ConnectRuns-Tidy connected a b c q k = tidy a b c q k
ConnectRuns-Tidy polling a b c q k = tidy a b c (rw k tt) tt
ConnectRuns-Tidy (refused p) a b c q k = tidy a b c q tt

CleanupRuns-Tidy :
    {s s' : Plugin} {pc : Pc}
    → CleanupRuns s pc s'
    → s.made ≡ bit s.session_path + session_at pc + s.ended + s.orphans + s.lost
    → s.imported ≡ bit s.config_path + config_at pc + s.removed + s.unseen
    → s.config_path ≡ s.session_path
    → Quiet s.session_path s.tasks
    → Knows pc s.session_path
    → Tidy s'.holder s'
CleanupRuns-Tidy cleaned a b c q k = tidy (ground arith) (ground arith) refl refl refl
CleanupRuns-Tidy hung_up a b c q k = tidy (omega arith) (omega arith) c q k
CleanupRuns-Tidy hang_up_failed a b c q k = tidy a b c q k
CleanupRuns-Tidy hung_up_again a b c q k = tidy (omega arith) (omega arith) c q k
CleanupRuns-Tidy hang_up_failed_twice a b c q k = tidy (omega arith) (omega arith) c q k
CleanupRuns-Tidy left_removed a b c q k = tidy (omega arith) (omega arith) c q tt

ReportRuns-Tidy :
    {s s' : Plugin} {pc : Pc}
    → ReportRuns s pc s'
    → s.made ≡ bit s.session_path + session_at pc + s.ended + s.orphans + s.lost
    → s.imported ≡ bit s.config_path + config_at pc + s.removed + s.unseen
    → s.config_path ≡ s.session_path
    → Quiet s.session_path s.tasks
    → Knows pc s.session_path
    → Tidy s'.holder s'
ReportRuns-Tidy (error_deferred p) a b c q k = tidy a b c q tt
ReportRuns-Tidy (error_reported p) a b c q k = tidy a b c q tt

DisconnectRuns-Tidy :
    {s s' : Plugin} {pc : Pc}
    → DisconnectRuns s pc s'
    → s.made ≡ bit s.session_path + session_at pc + s.ended + s.orphans + s.lost
    → s.imported ≡ bit s.config_path + config_at pc + s.removed + s.unseen
    → s.config_path ≡ s.session_path
    → Quiet s.session_path s.tasks
    → Knows pc s.session_path
    → Tidy s'.holder s'
DisconnectRuns-Tidy (taken_session p) a b c q k = tidy (ground arith) (ground arith) refl refl refl
DisconnectRuns-Tidy (taken_none p) a b c q k = tidy (ground arith) (ground arith) refl refl refl
DisconnectRuns-Tidy end_done a b c q k = tidy (omega arith) (omega arith) c q k
DisconnectRuns-Tidy end_failed a b c q k = tidy a b c q k
DisconnectRuns-Tidy end_done_again a b c q k = tidy (omega arith) (omega arith) c q k
DisconnectRuns-Tidy end_failed_twice a b c q k = tidy (omega arith) (omega arith) c q k
DisconnectRuns-Tidy config_ended a b c q k = tidy (omega arith) (omega arith) c q k
DisconnectRuns-Tidy stopped_session a b c q k = tidy a b c q tt

pub Runs-Tidy :
    {s s' : Plugin} {pc : Pc}
    → Runs s pc s'
    → s.made ≡ bit s.session_path + session_at pc + s.ended + s.orphans + s.lost
    → s.imported ≡ bit s.config_path + config_at pc + s.removed + s.unseen
    → s.config_path ≡ s.session_path
    → Quiet s.session_path s.tasks
    → Knows pc s.session_path
    → Tidy s'.holder s'
Runs-Tidy (in_connect r) a b c q k = ConnectRuns-Tidy r a b c q k
Runs-Tidy (in_cleanup r) a b c q k = CleanupRuns-Tidy r a b c q k
Runs-Tidy (in_report r) a b c q k = ReportRuns-Tidy r a b c q k
Runs-Tidy (in_disconnect r) a b c q k = DisconnectRuns-Tidy r a b c q k
Runs-Tidy left a b c q k = tidy a b c q tt
