-- ===== src/Tests/Calls.antt =====
-- Applications of the results on calls that are tried again.
use nm_openvpn.Base.{arith, if◌then◌else◌, ltb, refl, true, ℕ, ◌≡◌}
use nm_openvpn.Retry.{
  Fdo, service_unknown, unknown_object, is_transient, Called, done, failed, error, returned,
  with_activation_retry,
}
use nm_openvpn.Retry.Laws.{
  Missed, none_yet, one_more, Settles, by_value, Gives, with_activation_retry-settled,
  with_activation_retry-Missed,
}

abbrev same : Fdo → Fdo
same e = e

-- The service is there from the third call on.
abbrev late : ℕ → Called Fdo ℕ
late i = if ltb i 2 then failed service_unknown else done i

late-Missed : Missed same late 0 2
unfolding is_transient
late-Missed = one_more refl refl (one_more refl refl none_yet)

late-Settles : Settles same late 2 (returned 2)
late-Settles = by_value refl

with_activation_retry-settled_example :
    Gives same late (with_activation_retry same 5 late) (returned 2) 3 2
with_activation_retry-settled_example =
    with_activation_retry-settled same late 5 2 (returned 2) late-Missed (omega arith) late-Settles

-- The service never comes.
abbrev never : ℕ → Called Fdo ℕ
never i = failed unknown_object

never-Missed : Missed same never 0 2
unfolding is_transient
never-Missed = one_more refl refl (one_more refl refl none_yet)

never_transient : is_transient unknown_object ≡ true
unfolding is_transient
never_transient = refl

with_activation_retry-Missed_example :
    Gives same never (with_activation_retry same 3 never) (error unknown_object) 3 2
with_activation_retry-Missed_example =
    with_activation_retry-Missed same never 2 unknown_object never-Missed refl never_transient
