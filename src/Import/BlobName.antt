-- ===== src/Import/BlobName.antt =====
-- nm-openvpn3-properties/src/bridge.rs: the name of the file that an inline blob is written to.
use nm_openvpn.Base.{
  Bool, List, Str, [], if◌then◌else◌, map, str, ℕ, ◌%◌, ◌*◌, ◌++◌, ◌+◌, ◌-◌, ◌/◌, ◌^◌, suc, zero,
  ◌∷◌, ltb,
}
use Prim.Native.Nat.{bit_xor}

-- The bytes of a code point, and of a string: `s.as_bytes()`.
unfoldable pub utf8 : ℕ → List ℕ
utf8 c =
    if ltb c 128
    then c ∷ []
    else if ltb c 2048
    then (192 + c / 64) ∷ (128 + c % 64) ∷ []
    else if ltb c 65536
    then (224 + c / 4096) ∷ (128 + (c / 64) % 64) ∷ (128 + c % 64) ∷ []
    else (240 + c / 262144) ∷ (128 + (c / 4096) % 64) ∷ (128 + (c / 64) % 64) ∷ (128 + c % 64) ∷ []

unfoldable pub as_bytes : Str → List ℕ
as_bytes [] = []
as_bytes (c ∷ s) = utf8 c ++ as_bytes s

-- FNV-1a over the bytes, from `h` on; `wrapping_mul` on a `u32`.
unfoldable pub fnv : ℕ → List ℕ → ℕ
fnv h [] = h
fnv h (b ∷ bs) = fnv ((bit_xor h b * 16777619) % 2 ^ 32) bs

unfoldable pub hex_digit : ℕ → ℕ
hex_digit d = if ltb d 10 then b'0' + d else b'a' + (d - 10)

-- The last `n` hexadecimal digits of `h`.
unfoldable pub hex : ℕ → ℕ → Str
hex zero h = []
hex (suc n) h = hex n (h / 16) ++ hex_digit (h % 16) ∷ []

-- `is_alphanumeric` is that of `char`.
unfoldable pub id_safe : (ℕ → Bool) → Str → Str
id_safe is_alphanumeric id = map (λ c. if is_alphanumeric c then c else b'_') id

unfoldable pub id_disc : Str → Str
id_disc id = hex 8 (fnv 2166136261 (as_bytes id))

unfoldable pub blob_filename : (ℕ → Bool) → Str → Str → Str
blob_filename is_alphanumeric id name =
    id_safe is_alphanumeric id ++ b'-' ∷ (id_disc id ++ b'-' ∷ (name ++ str ".pem"))
