-- ===== src/Retry/Laws.antt =====
-- The outcome is that of the first call that settles it, or the error of the last one.
use nm_openvpn.Base.{
  Option, suc, zero, ℕ, ◌+◌, ◌<◌, ◌≡◌, true, false, ltb, arith, refl, none, ◌∙◌, some, not,
  if◌then◌else◌,
}
use nm_openvpn.Retry.{
  Fdo, is_transient, Called, done, failed, Outcome, returned, error, Run, attempt,
  with_activation_retry, expect_error,
}

module _ {E T : Type 0} (fdo : E → Fdo) (op : ℕ → Called E T) where
  -- The calls from `i` on, `n` of them, failed before they reached the receiver.
  pub data Missed : ℕ → ℕ → Type 0 where
    none_yet : {i : ℕ} → Missed i 0
    one_more :
        {i n : ℕ} {e : E}
        → op i ≡ failed e
        → is_transient (fdo e) ≡ true
        → Missed (i + 1) n
        → Missed i (suc n)

  -- The call settles the outcome.
  pub data Settles (i : ℕ) : Outcome E T → Type 0 where
    by_value : {t : T} → op i ≡ done t → Settles i (returned t)
    by_error : {e : E} → op i ≡ failed e → is_transient (fdo e) ≡ false → Settles i (error e)

  abbrev pub Gives : Run E T → Outcome E T → ℕ → ℕ → Type 0
  Gives run r calls pauses = (run.outcome ≡ r) × (run.calls ≡ calls) × (run.pauses ≡ pauses)

  attempt_done :
      (a i pauses : ℕ) (last : Option E) (t : T)
      → op i ≡ done t
      → attempt fdo op (suc a) i pauses last
        ≡ record { outcome = returned t; calls = i + 1; pauses = pauses }
  unfolding attempt
  attempt_done a i pauses last t h = rw (h, attempt)

  attempt_failed :
      (a i pauses : ℕ) (last : Option E) (e : E)
      → op i ≡ failed e
      → attempt fdo op (suc a) i pauses last ≡ (
          if not (is_transient (fdo e))
          then record { outcome = error e; calls = i + 1; pauses = pauses }
          else attempt fdo op a (i + 1) (if ltb 0 a then pauses + 1 else pauses) (some e))
  unfolding attempt
  attempt_failed a i pauses last e h = rw (h, attempt)

  settled_now :
      (a i pauses : ℕ) (last : Option E) {r : Outcome E T}
      → Settles i r
      → Gives (attempt fdo op (suc a) i pauses last) r (i + 1) pauses
  settled_now a i pauses last (by_value {t} h) =
      rw (attempt_done a i pauses last t h) (refl, refl, refl)
  settled_now a i pauses last (by_error {e} h k) =
      rw (attempt_failed a i pauses last e h, k) (refl, refl, refl)

  attempt-settled :
      (a : ℕ) {i n j : ℕ} {r : Outcome E T} (pauses : ℕ) (last : Option E)
      → Missed i n
      → n < a
      → j ≡ i + n
      → Settles j r
      → Gives (attempt fdo op a i pauses last) r (j + 1) (pauses + n)
  attempt-settled zero pauses last m h q s = absurd (omega arith)
  attempt-settled (suc a) {i} {j = j} pauses last none_yet h q s =
      let e : i ≡ j = omega arith in
      let (o, c, w) = settled_now a j pauses last s in rw e (o, c, w ∙ omega arith)
  attempt-settled (suc a) {i} pauses last (one_more {n = n} {e = e} f t m) h q s =
      let p : ltb 0 a ≡ true = ground arith in
      let (o, c, w) = attempt-settled a (pauses + 1) (some e) m (omega arith) (omega arith) s in
      rw (attempt_failed a i pauses last e f, t, p) (o, c, w ∙ omega arith)

  attempt-Missed :
      (a : ℕ) {i n j : ℕ} (pauses : ℕ) (last : Option E) (e : E)
      → Missed i n
      → a ≡ n + 1
      → j ≡ i + n
      → op j ≡ failed e
      → is_transient (fdo e) ≡ true
      → Gives (attempt fdo op a i pauses last) (error e) (j + 1) (pauses + n)
  unfolding attempt expect_error
  attempt-Missed zero pauses last e m h q f t = absurd (omega arith)
  attempt-Missed (suc zero) {i} {j = j} pauses last e none_yet h q f t =
      let k : i ≡ j = omega arith in
      rw (k, attempt_failed zero j pauses last e f, t) (refl, refl, omega arith)
  attempt-Missed (suc (suc a)) pauses last e none_yet h q f t = absurd (omega arith)
  attempt-Missed (suc a) {i} pauses last e (one_more {n = n} {e = d} g u m) h q f t =
      let p : ltb 0 a ≡ true = ground arith in
      let (o, c, w) = attempt-Missed a (pauses + 1) (some d) e m (omega arith) (omega arith) f t in
      rw (attempt_failed a i pauses last d g, u, p) (o, c, w ∙ omega arith)

  -- If the first `n` calls failed before they reached the receiver, and the next one, which is
  -- among the attempts, returned or failed otherwise, then that is the outcome: `n + 1` calls were
  -- made, and a pause after each of the first `n`.
  pub with_activation_retry-settled :
      (attempts n : ℕ) (r : Outcome E T)
      → Missed 0 n
      → n < attempts
      → Settles n r
      → Gives (with_activation_retry fdo attempts op) r (n + 1) n
  unfolding with_activation_retry
  with_activation_retry-settled zero n r m h s = absurd (omega arith)
  with_activation_retry-settled (suc a) n r m h s =
      let (o, c, w) = attempt-settled (suc a) 0 none m h (omega arith) s in (o, c, w ∙ omega arith)

  -- If every attempt fails before it reaches the receiver, the outcome is the error of the last
  -- one, after as many calls as attempts and a pause between each two of them.
  pub with_activation_retry-Missed :
      (n : ℕ) (e : E)
      → Missed 0 n
      → op n ≡ failed e
      → is_transient (fdo e) ≡ true
      → Gives (with_activation_retry fdo (suc n) op) (error e) (n + 1) n
  unfolding with_activation_retry
  with_activation_retry-Missed n e m f t =
      let (o, c, w) = attempt-Missed (suc n) 0 none e m (omega arith) (omega arith) f t in
      (o, c, w ∙ omega arith)
