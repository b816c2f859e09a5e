-- ===== src/Session/PollerLaws.antt =====
-- The poller gives up: before Started within a hundred rounds, after it on the sixth failed read.
use nm_openvpn.Base.{
  Bool, List, Option, Str, [], arith, false, if◌then◌else◌, ltb, none, not, refl, some, suc, true,
  zero, ℕ, ◌&&◌, ◌+◌, ◌<◌, ◌||◌, ◌∷◌, ◌≡◌,
}
use nm_openvpn.Session.Tasks.{
  post_started_err_budget, fail_with, Poller, max_ticks_pre_started, Poll, poller_on, poller_read,
  poller,
}
use nm_openvpn.Status.{Status, NmVpnServiceState, stopped, started}
use nm_openvpn.Session.Code.{
  Code, break_loop, next_event, set_state, failure_once, publish_ip4, if_disconnecting,
}

-- The code can come back to the head of the loop.
unfoldable pub may_loop : Code → Bool
may_loop break_loop = false
may_loop next_event = true
may_loop (set_state s k) = may_loop k
may_loop (failure_once r k) = may_loop k
may_loop (publish_ip4 a b c) = may_loop a || may_loop b || may_loop c
may_loop (if_disconnecting a b) = may_loop a || may_loop b

-- The rounds of a poller, as long as it comes back to the loop's head and has not passed Started.
unfoldable pub waits : Poller → List Poll → Option Poller
waits p [] = some p
waits p (poll ∷ polls) =
    let (p', code) = poller p poll in
    let rest = waits p' polls in if may_loop code && not p'.past_started then rest else none

unfoldable pub length {ℓ} : {A : Type ℓ} → List A → ℕ
length [] = 0
length (x ∷ xs) = suc (length xs)

poller_on-ticks :
    (p : Poller) (status : Option Status) (t : Option NmVpnServiceState)
    → (poller_on p status t).0.past_started ≡ false
    → (poller_on p status t).0.ticks ≡ p.ticks
unfolding poller_on
poller_on-ticks p status none h = refl
poller_on-ticks p status (some started) h = ground arith
poller_on-ticks p status (some stopped) h = refl
poller_on-ticks p status (some _) h = refl

poller_read-ticks :
    (p : Poller) (poll : Poll)
    → (poller_read p poll).0.past_started ≡ false
    → (poller_read p poll).0.ticks ≡ p.ticks
poller_read-ticks p poll = go poll.status refl
  where
    go :
        (o : Option (ℕ × ℕ))
        → poll.status ≡ o
        → (poller_read p poll).0.past_started ≡ false
        → (poller_read p poll).0.ticks ≡ p.ticks
    go none e = unfold poller_read in rw (e, poller_read) (λ h. ground arith)
    go (some pair) e =
        unfold poller_read in rw (e, poller_read) (poller_on-ticks (record p { errs = 0 }) _ _)

-- A round before Started that comes back to the loop has counted one tick, below the cap.
poller_tick :
    (p : Poller) (poll : Poll)
    → p.past_started ≡ false
    → may_loop (poller p poll).1 ≡ true
    → (poller p poll).0.past_started ≡ false
    → ((poller p poll).0.ticks ≡ p.ticks + 1) × (p.ticks + 1 < 100)
unfolding poller fail_with may_loop max_ticks_pre_started
poller_tick p poll h e n = ground (arith, poller_read-ticks (record p { ticks = p.ticks + 1 }) poll)

waits_le :
    (polls : List Poll) (p q : Poller)
    → p.past_started ≡ false
    → p.ticks < 100
    → waits p polls ≡ some q
    → length polls + p.ticks < 100
unfolding waits length
waits_le [] p q h t e = omega arith
waits_le (poll ∷ polls) p q h t e =
    ground (arith, poller_tick p poll, waits_le polls (poller p poll).0 q)

-- A poller at its start.
abbrev pub fresh : Poller
fresh = record { past_started = false; ticks = 0; errs = 0 }

-- Whatever the session reports, a poller that has not passed Started is back at the head of its
-- loop after fewer than a hundred rounds only.
pub waits-lt : (polls : List Poll) (q : Poller) → waits fresh polls ≡ some q → length polls < 100
waits-lt polls q h = omega (arith, waits_le polls fresh q refl (omega arith) h)

-- The rounds in which a poller past Started cannot read the status.
unfoldable pub unread : ℕ → Option Str → Poller → Option Poller
unread zero dev p = some p
unread (suc n) dev p =
    let (p', code) = poller p (record { status = none; device = dev }) in
    let rest = unread n dev p' in if may_loop code then rest else none

unread_step :
    (dev : Option Str) (p : Poller)
    → p.past_started ≡ true
    → ((poller p (record { status = none; device = dev })).0
        ≡ record p { ticks = p.ticks + 1; errs = p.errs + 1 })
      × (may_loop (poller p (record { status = none; device = dev })).1 ≡ ltb (p.errs + 1) 6)
unfolding poller poller_read post_started_err_budget max_ticks_pre_started fail_with may_loop
unread_step dev p h = ground arith

unread_lem :
    (n : ℕ) (dev : Option Str) (p : Poller)
    → p.past_started ≡ true
    → p.errs < 6
    → unread n dev p ≡ (
        if ltb (p.errs + n) 6
        then some (record p { ticks = p.ticks + n; errs = p.errs + n })
        else none)
unfolding unread
unread_lem zero dev p h e = ground arith
unread_lem (suc n) dev p h e = ground (
  arith,
  unread_step dev p,
  unread_lem n dev (record p { ticks = p.ticks + 1; errs = p.errs + 1 }) h,
)

-- After a read that went well, a poller past Started bears five failed reads in a row, and leaves
-- its loop on the sixth.
pub unread-fails :
    (n : ℕ) (dev : Option Str) (p : Poller)
    → p.past_started ≡ true
    → p.errs ≡ 0
    → unread n dev p ≡ (if ltb n 6 then some (record p { ticks = p.ticks + n; errs = n }) else none)
unread-fails n dev p h e = rw (unread_lem n dev p h (omega arith)) (ground arith)
