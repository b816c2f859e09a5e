-- ===== src/Stats.antt =====
-- nm-openvpn3-service/src/plugin.rs: `spawn_stats_timer` and `byte_rate`. What is logged is a value.
pub mod Rates
use nm_openvpn.Base.{
  List, Option, Str, [], if◌then◌else◌, leb, ltb, none, some, str, suc, ◌-◌, ◌+◌, ◌^◌, ◌∷◌, Bool, ℕ,
  false, true,
}
use nm_openvpn.Base.Maps.{Map}
use nm_openvpn.Text.{ℤ, negsuc, pos}

-- `f64`, as `byte_rate` uses it: the cast of an i64, `as_secs_f64` of nanoseconds, `max`, the
-- literal 1e-3, the division, and the cast back.
pub record Floats : Type 1 where
  pub F : Type 0
  pub of_i64 : ℤ → F
  pub as_secs : ℕ → F
  pub larger : F → F → F
  pub milli : F
  pub divide : F → F → F
  pub as_i64 : F → ℤ

-- The difference of two natural numbers.
unfoldable pub difference : ℕ → ℕ → ℤ
difference a b = if leb b a then pos (a - b) else negsuc (b - a - 1)

unfoldable pub minus : ℤ → ℤ → ℤ
minus (pos a) (pos b) = difference a b
minus (pos a) (negsuc b) = pos (a + suc b)
minus (negsuc a) (pos b) = negsuc (a + b)
minus (negsuc a) (negsuc b) = difference b a

-- The nearest i64.
unfoldable pub saturated : ℤ → ℤ
saturated (pos n) = if ltb n (2 ^ 63) then pos n else pos (2 ^ 63 - 1)
saturated (negsuc n) = if ltb n (2 ^ 63) then negsuc n else negsuc (2 ^ 63 - 1)

unfoldable pub at_least_zero : ℤ → ℤ
at_least_zero (pos n) = pos n
at_least_zero (negsuc n) = pos 0

-- `cur.saturating_sub(prev).max(0)`
unfoldable pub grown : ℤ → ℤ → ℤ
grown prev cur = at_least_zero (saturated (minus cur prev))

pub record Counters : Type 0 where
  pub bytes_in : ℤ
  pub bytes_out : ℤ
  pub tun_bytes_in : ℤ
  pub tun_bytes_out : ℤ
  pub packets_in : ℤ
  pub packets_out : ℤ

unfoldable pub or_zero : Option ℤ → ℤ
or_zero none = pos 0
or_zero (some n) = n

unfoldable pub counters : Map ℤ → Counters
counters stats = record {
  bytes_in = or_zero (stats (str "BYTES_IN"));
  bytes_out = or_zero (stats (str "BYTES_OUT"));
  tun_bytes_in = or_zero (stats (str "TUN_BYTES_IN"));
  tun_bytes_out = or_zero (stats (str "TUN_BYTES_OUT"));
  packets_in = or_zero (stats (str "PACKETS_IN"));
  packets_out = or_zero (stats (str "PACKETS_OUT"));
}

-- What a round of the loop finds after its pause: that the session has failed, that the statistics
-- cannot be fetched, or the statistics, and the time.
pub data Tick : Type 0 where
  session_failed : Tick
  not_fetched : Tick
  fetched : (now : ℕ) (stats : Map ℤ) → Tick

pub data Line : Type 0 where
  totals : Counters → Line
  rates : (c : Counters) (rate_rx rate_tx : ℤ) → Line

pub record Timer : Type 0 where
  pub last_bytes_in : ℤ
  pub last_bytes_out : ℤ
  pub last_tick : ℕ
  pub first : Bool

unfoldable pub new_timer : ℕ → Timer
new_timer start = record {
  last_bytes_in = pos 0;
  last_bytes_out = pos 0;
  last_tick = start;
  first = true;
}

unfoldable pub after : Timer → ℕ → Counters → Timer
after t now c = record {
  last_bytes_in = c.bytes_in;
  last_bytes_out = c.bytes_out;
  last_tick = if t.first then t.last_tick else now;
  first = false;
}

module _ (N : Floats) where
  open N use {F, of_i64, as_secs, larger, milli, divide, as_i64}

  unfoldable pub byte_rate : ℤ → ℤ → F → ℤ
  byte_rate prev cur dt_secs = as_i64 (divide (of_i64 (grown prev cur)) (larger dt_secs milli))

  unfoldable pub line_of : Timer → ℕ → Counters → Line
  line_of t now c =
      let dt = as_secs (now - t.last_tick) in
      if t.first
      then totals c
      else rates c (byte_rate t.last_bytes_in c.bytes_in dt)
          (byte_rate t.last_bytes_out c.bytes_out dt)

  -- The loop, as the lines that it logs.
  unfoldable pub run : Timer → List Tick → List Line
  run t [] = []
  run t (session_failed ∷ ticks) = []
  run t (not_fetched ∷ ticks) = run t ticks
  run t (fetched now stats ∷ ticks) =
      let c = counters stats in line_of t now c ∷ run (after t now c) ticks

  unfoldable pub stats_timer : ℕ → List Tick → List Line
  stats_timer start ticks = run (new_timer start) ticks
