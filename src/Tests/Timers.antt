-- ===== src/Tests/Timers.antt =====
-- Two good reads of the statistics, thirty seconds apart.
use nm_openvpn.Base.{List, [], if◌then◌else◌, ltb, refl, str, str_eq, ◌*◌, ◌/◌, ◌∷◌, ◌≡◌, ◌^◌, ℕ}
use nm_openvpn.Base.Maps.{Map, empty, insert}
use nm_openvpn.Text.{ℤ, negsuc, pos}
use nm_openvpn.Stats.{
  Floats, Tick, after, at_least_zero, byte_rate, counters, difference, fetched, grown, line_of,
  minus, new_timer, not_fetched, or_zero, rates, run, saturated, stats_timer, totals,
}
use nm_openvpn.Stats.Rates.{expected, reads, stats_timer-expected}

abbrev magnitude : ℤ → ℕ
magnitude (pos n) = n
magnitude (negsuc n) = n

-- Thousandths, in the place of `f64`.
abbrev thousandths : Floats
thousandths = record {
  F = ℕ;
  of_i64 = λ z. magnitude z * 1000;
  as_secs = λ ns. ns / 10 ^ 6;
  larger = λ a b. if ltb a b then b else a;
  milli = 1;
  divide = λ a b. a * 1000 / b;
  as_i64 = λ x. pos (x / 1000);
}

abbrev received : ℕ → Map ℤ
received n = insert (str "BYTES_IN") (pos n) empty

abbrev ticks : List Tick
ticks =
    fetched (30 * 10 ^ 9) (received 3000) ∷ not_fetched ∷ fetched (60 * 10 ^ 9) (received 6000) ∷ []

stats_timer-expected_example :
    stats_timer thousandths 0 ticks ≡ expected thousandths 0 (reads ticks)
stats_timer-expected_example = stats_timer-expected thousandths 0 ticks

-- 3000 bytes in thirty seconds are reported as 50 bytes per second.
half_rate :
    stats_timer thousandths 0 ticks
    ≡ totals (counters (received 3000)) ∷ rates (counters (received 6000)) (pos 50) (pos 0) ∷ []
unfolding stats_timer run new_timer line_of after byte_rate grown minus difference saturated
    at_least_zero counters or_zero insert str str_eq
half_rate = refl
