-- ===== src/Text/Lines.antt =====
-- `str::lines`: a line ends at `\n` or `\r\n`; what follows the last one is a line if not empty.
use nm_openvpn.Base.{List, Str, [], false, if◌then◌else◌, true, ◌&&◌, ◌++◌, ◌==◌, ◌∷◌}
use nm_openvpn.Text.Chars.{is_empty}

-- the line without the `\r` that stood before its `\n`
unfoldable pub strip_cr : Str → Str
unfolding is_empty
strip_cr [] = []
strip_cr (c ∷ s) = let r = strip_cr s in if c == b'\r' && is_empty s then [] else c ∷ r

unfoldable pub last_line : Str → List Str
last_line [] = []
last_line (c ∷ s) = (c ∷ s) ∷ []

unfoldable pub lines_from : Str → Str → List Str
lines_from cur [] = last_line cur
lines_from cur (c ∷ s) = elim (c == b'\n') [
  | true ↦ strip_cr cur ∷ lines_from [] s
  | false ↦ lines_from (cur ++ c ∷ []) s
]

unfoldable pub lines : Str → List Str
unfolding strip_cr last_line lines_from
lines s = lines_from [] s
