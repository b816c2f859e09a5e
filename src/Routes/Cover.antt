-- ===== src/Routes/Cover.antt =====
-- A table with a default route covers every address.
use nm_openvpn.Base.{
  Bool, Bool-cases, List, [], arith, false, inl, inr, leb, ltb, refl, true, ℕ, ◌%◌, ◌&&◌, ◌*◌, ◌+◌,
  ◌-◌, ◌/◌, ◌<◌, ◌^◌, ◌||◌, ◌∷◌, ◌≡◌, ◌≤◌, ◌⊎◌,
}
use nm_openvpn.Routes.{Route, any, is_net, has_default_route}

-- The address whose octets a column lists with the first one lowest.
unfoldable pub address : ℕ → ℕ
address n = n % 256 * 2 ^ 24 + n / 256 % 256 * 2 ^ 16 + n / 65536 % 256 * 2 ^ 8 + n / 16777216 % 256

-- The address `a` is one of the `2 ^ (32 - prefix)` from the route's network address on.
unfoldable pub covers : ℕ → Route → Bool
covers a r = leb (address r.dest_be) a && ltb a (address r.dest_be + 2 ^ (32 - r.prefix))

any_imp :
    (p q : Route → Bool) (rs : List Route)
    → ((r : Route) → p r ≡ true → q r ≡ true)
    → any p rs ≡ true
    → any q rs ≡ true
unfolding any
any_imp p q [] f h = h
any_imp p q (r ∷ rs) f h = elim (Bool-cases (p r)) [
  | inl e ↦ rw (f r e) refl
  | inr e ↦ or_right (q r) (any q rs) (any_imp p q rs f (rw e at h))
]
  where
    or_right : (a b : Bool) → b ≡ true → (a || b) ≡ true
    or_right true b k = refl
    or_right false b k = k

net_lem :
    (prefix dest : ℕ) (r : Route)
    → is_net prefix dest r ≡ true
    → (r.prefix ≡ prefix) × (r.dest_be ≡ dest)
unfolding is_net
net_lem prefix dest r h = ground arith

whole_covers : (a : ℕ) → a < 2 ^ 32 → (r : Route) → is_net 0 0 r ≡ true → covers a r ≡ true
unfolding covers address
whole_covers a h r k = let (p, d) = net_lem 0 0 r k in rw (p, d) (ground arith)

lower_covers : (a : ℕ) → a < 2 ^ 31 → (r : Route) → is_net 1 0 r ≡ true → covers a r ≡ true
unfolding covers address
lower_covers a h r k = let (p, d) = net_lem 1 0 r k in rw (p, d) (ground arith)

upper_covers :
    (a : ℕ) → 2 ^ 31 ≤ a → a < 2 ^ 32 → (r : Route) → is_net 1 0x80 r ≡ true → covers a r ≡ true
unfolding covers address
upper_covers a l h r k = let (p, d) = net_lem 1 0x80 r k in rw (p, d) (ground arith)

-- If `has_default_route` holds of a table, every IPv4 address is covered by one of its routes.
pub has_default_route-covers :
    (routes : List Route) (a : ℕ)
    → a < 2 ^ 32
    → has_default_route routes ≡ true
    → any (covers a) routes ≡ true
unfolding has_default_route
has_default_route-covers routes a h k = elim (Bool-cases (any (is_net 0 0) routes)) [
  | inl e ↦ any_imp (is_net 0 0) (covers a) routes (whole_covers a h) e
  | inr e ↦
      let (lower, upper) = both _ _ (rw e at k) in
      elim (halves a) [
        | inl l ↦ any_imp (is_net 1 0) (covers a) routes (lower_covers a l) lower
        | inr u ↦ any_imp (is_net 1 0x80) (covers a) routes (upper_covers a u h) upper
      ]
]
  where
    both : (x y : Bool) → (x && y) ≡ true → (x ≡ true) × (y ≡ true)
    both x y h = ground arith

    halves : (a : ℕ) → (a < 2 ^ 31) ⊎ (2 ^ 31 ≤ a)
    halves a = ground arith
