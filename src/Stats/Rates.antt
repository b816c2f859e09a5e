-- ===== src/Stats/Rates.antt =====
-- Between which reads a rate is taken.
use nm_openvpn.Base.{
  Bool-cases, arith, inl, inr, leb, ltb, ◌<◌, ◌^◌, ◌≤◌, List, [], ap, false, refl, true, ◌-◌, ◌∷◌,
  ◌≡◌, ℕ,
}
use nm_openvpn.Text.{pos}
use nm_openvpn.Stats.{
  at_least_zero, difference, grown, minus, saturated, Counters, Floats, Line, Tick, Timer, after,
  byte_rate, counters, fetched, line_of, new_timer, not_fetched, rates, run, session_failed,
  stats_timer, totals,
}

-- Two i64 counters that are not negative: the growth is exact, and 0 where the counter was reset.
pub grown-pos : (a b : ℕ) → a < 2 ^ 63 → b < 2 ^ 63 → grown (pos a) (pos b) ≡ pos (b - a)
unfolding grown minus difference saturated at_least_zero
grown-pos a b h k = elim (Bool-cases (leb a b)) [
  | inl up ↦ rw up (rw (fits (b - a) (omega arith)) refl)
  | inr reset ↦
      rw reset (rw (fits (a - b - 1) (omega arith)) (ap pos (none_left a b (ground arith))))
]
  where
    fits : (n : ℕ) → n < 2 ^ 63 → ltb n (2 ^ 63) ≡ true
    fits n h = ground arith

    none_left : (a b : ℕ) → b ≤ a → 0 ≡ b - a
    none_left a b h = omega arith

-- The good reads before the failure, with their times.
abbrev pub reads : List Tick → List (ℕ × Counters)
reads [] = []
reads (session_failed ∷ ticks) = []
reads (not_fetched ∷ ticks) = reads ticks
reads (fetched now stats ∷ ticks) = (now, counters stats) ∷ reads ticks

module _ (N : Floats) where
  open N use {as_secs}

  -- The rates of reads that follow a read of `c`, the first of them counted from `since`.
  abbrev pub gaps : ℕ → Counters → List (ℕ × Counters) → List Line
  gaps since c [] = []
  gaps since c ((now, d) ∷ rs) =
      rates d (byte_rate N c.bytes_in d.bytes_in (as_secs (now - since)))
        (byte_rate N c.bytes_out d.bytes_out (as_secs (now - since)))
      ∷ gaps now d rs

  abbrev pub expected : ℕ → List (ℕ × Counters) → List Line
  expected start [] = []
  expected start ((now, c) ∷ rs) = totals c ∷ gaps start c rs

  abbrev kept : ℕ → Counters → Timer
  kept since c = record {
    last_bytes_in = c.bytes_in;
    last_bytes_out = c.bytes_out;
    last_tick = since;
    first = false;
  }

  run-gaps :
      (since : ℕ) (c : Counters) (ticks : List Tick)
      → run N (kept since c) ticks ≡ gaps since c (reads ticks)
  unfolding run line_of after
  run-gaps since c [] = refl
  run-gaps since c (session_failed ∷ ticks) = refl
  run-gaps since c (not_fetched ∷ ticks) = run-gaps since c ticks
  run-gaps since c (fetched now stats ∷ ticks) =
      ap (λ rest. line_of N (kept since c) now (counters stats) ∷ rest)
        (run-gaps now (counters stats) ticks)

  -- The timer logs the first good read as it is. For each later one before the failure it logs the
  -- rates of the bytes since the good read before it, over the time since that read; but for the
  -- second good read the time is counted from the start of the task. Failed reads change nothing.
  pub stats_timer-expected :
      (start : ℕ) (ticks : List Tick) → stats_timer N start ticks ≡ expected start (reads ticks)
  unfolding stats_timer new_timer run line_of after
  stats_timer-expected start [] = refl
  stats_timer-expected start (session_failed ∷ ticks) = refl
  stats_timer-expected start (not_fetched ∷ ticks) = stats_timer-expected start ticks
  stats_timer-expected start (fetched now stats ∷ ticks) =
      ap (λ rest. totals (counters stats) ∷ rest) (run-gaps start (counters stats) ticks)
