-- ===== src/Retry.antt =====
-- ovpn3-client/src/retry.rs: a D-Bus call is tried again as long as its error shows that the
-- receiver never saw it. The errors of zbus are a type that `fdo` looks at, as `fdo::Error::from`
-- does in the source; the operation gives a result for each of its calls.
pub mod Laws
use nm_openvpn.Base.{
  Bool, Option, Str, false, if◌then◌else◌, ltb, none, not, some, str, suc, true, zero, ℕ, ◌+◌,
}
use nm_openvpn.Text.{contains_str}

-- The variants of `fdo::Error` that the source tells apart.
pub data Fdo : Type 0 where
  service_unknown spawn_child_exited unknown_object : Fdo
  unknown_method : (msg : Str) → Fdo
  other_error : Fdo

unfoldable pub is_transient : Fdo → Bool
unfolding contains_str str
is_transient service_unknown = true
is_transient spawn_child_exited = true
is_transient unknown_object = true
is_transient (unknown_method msg) = contains_str (str "Object does not exist at path") msg
is_transient other_error = false

-- What one call gives.
pub data Called (E T : Type 0) : Type 0 where
  done : T → Called E T
  failed : E → Called E T

-- What the loop gives, or the panic of `expect` on an error that was never recorded.
pub data Outcome (E T : Type 0) : Type 0 where
  returned : T → Outcome E T
  error : E → Outcome E T
  no_attempts panicked : Outcome E T

-- The outcome, with the number of calls and of pauses that were made.
pub record Run (E T : Type 0) : Type 0 where
  pub outcome : Outcome E T
  pub calls : ℕ
  pub pauses : ℕ

unfoldable pub expect_error : {E T : Type 0} → Option E → Outcome E T
expect_error none = panicked
expect_error (some e) = error e

-- The loop from call `i` on, with `left` calls to go.
unfoldable pub attempt :
    {E T : Type 0} (fdo : E → Fdo) (op : ℕ → Called E T) (left i pauses : ℕ) (last_err : Option E)
    → Run E T
attempt fdo op zero i pauses last_err = record {
  outcome = expect_error last_err;
  calls = i;
  pauses = pauses;
}
attempt fdo op (suc left) i pauses last_err = elim (op i) [
  | done t ↦ record { outcome = returned t; calls = i + 1; pauses = pauses }
  | failed e ↦
      let rest = attempt fdo op left (i + 1) (if ltb 0 left then pauses + 1 else pauses) (some e) in
      if not (is_transient (fdo e))
      then record { outcome = error e; calls = i + 1; pauses = pauses }
      else rest
]

unfoldable pub with_activation_retry :
    {E T : Type 0} (fdo : E → Fdo) (attempts : ℕ) (op : ℕ → Called E T) → Run E T
with_activation_retry fdo zero op = record { outcome = no_attempts; calls = 0; pauses = 0 }
with_activation_retry fdo (suc n) op = attempt fdo op (suc n) 0 0 none
