-- ===== src/Files/Defs.antt =====
-- A disk, as what stands at each path, and the calls of the system that the code makes.
use nm_openvpn.Base.{Bool, List, Option, Str, [], false, none, some, suc, true, zero, ℕ, ◌∷◌}
use nm_openvpn.Base.Maps.{Map}

-- A regular file has its mode and its bytes.
pub data Node : Type 0 where
  file : (mode : ℕ) (bytes : List ℕ) → Node
  link : (target : Str) → Node
  fifo directory : Node

abbrev pub Disk : Type 0
Disk = Map Node

unfoldable pub count : List ℕ → ℕ
count [] = 0
count (b ∷ bs) = suc (count bs)

unfoldable pub take : ℕ → List ℕ → List ℕ
take zero bs = []
take (suc n) [] = []
take (suc n) (b ∷ bs) = b ∷ take n bs

unfoldable pub is_directory : Option Node → Bool
is_directory (some directory) = true
is_directory _ = false

unfoldable pub is_there : Option Node → Bool
is_there none = false
is_there (some n) = true
