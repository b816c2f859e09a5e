-- ===== src/Dialog/Details/RoundTrip.antt =====
-- What libnm writes is read back.
use nm_openvpn.Base.{
  Bool, ap, append_assoc, map, List, Option, Str, [], arith, false, none, one_of, refl, some, str,
  str_eq, ◌++◌, ◌∙◌, ◌∷◌, ◌≡◌,
}
use nm_openvpn.Base.Lists.{All}
use nm_openvpn.Text.Laws.{IsLine, lines_line, unlines}
use nm_openvpn.Text.{any_char, strip_cr, cut_once, is_empty, lines, split_once}
use nm_openvpn.Base.Maps.{Map, empty, insert, insert_all}
use nm_openvpn.Dialog.Details.{
  Details, data_value, secret_value, entry, parts_of, read_line, read_lines, read_vpn_details,
  input_lines,
}

-- The lines of one block, as libnm writes them: for each pair its key and its value.
unfoldable pub block : Str → Str → List (Str × Str) → List Str
block key val [] = []
block key val ((k, v) ∷ ps) = (key ++ k) ∷ (val ++ v) ∷ block key val ps

-- The text: data, an empty line, secrets, an empty line, and DONE, before anything else.
unfoldable pub written : List (Str × Str) → List (Str × Str) → Str → Str
written data' secrets rest =
    unlines (
      block (str "DATA_KEY=") (str "DATA_VAL=") data'
      ++ [] ∷ (block (str "SECRET_KEY=") (str "SECRET_VAL=") secrets ++ [] ∷ str "DONE" ∷ []))
    ++ rest

-- A pair whose key is not empty, and of which neither the key nor the value holds a newline or ends
-- in a carriage return.
pub record IsPair (kv : Str × Str) : Type 0 where
  pub has_key : is_empty kv.0 ≡ false
  pub key_line : IsLine kv.0
  pub value_line : IsLine kv.1

abbrev pub at : Map Str → Map Str → Details
at data' secrets = record { data' = data'; secrets = secrets; current_key = none }

abbrev all_lines : List Str → List (Option Str) → List (Option Str)
all_lines [] t = t
all_lines (l ∷ ls) t = some l ∷ all_lines ls t

-- The first line of a text of several.
one_more :
    (l : Str) (ls : List Str) (rest : Str)
    → IsLine l
    → lines (unlines (l ∷ ls) ++ rest) ≡ l ∷ lines (unlines ls ++ rest)
one_more l ls rest h =
    ap lines (append_assoc l (b'\n' ∷ unlines ls) rest)
    ∙ lines_line l (unlines ls ++ rest) h.one_line h.whole

data_pair :
    (k v : Str) (d s : Map Str) (lines : List (Option Str))
    → is_empty k ≡ false
    → read_lines (at d s) (some (str "DATA_KEY=" ++ k) ∷ some (str "DATA_VAL=" ++ v) ∷ lines)
      ≡ read_lines (at (insert k v d) s) lines
unfolding read_lines read_line parts_of entry data_value split_once cut_once str str_eq is_empty
    one_of
data_pair [] v d s lines h = ground arith
data_pair (c ∷ k) v d s lines h = refl

secret_pair :
    (k v : Str) (d s : Map Str) (lines : List (Option Str))
    → is_empty k ≡ false
    → read_lines (at d s) (some (str "SECRET_KEY=" ++ k) ∷ some (str "SECRET_VAL=" ++ v) ∷ lines)
      ≡ read_lines (at d (insert k v s)) lines
unfolding read_lines read_line parts_of entry secret_value split_once cut_once str str_eq is_empty
    one_of
secret_pair [] v d s lines h = ground arith
secret_pair (c ∷ k) v d s lines h = refl

data_block :
    (ps : List (Str × Str)) (d s : Map Str) (lines : List (Option Str))
    → All IsPair ps
    → read_lines (at d s) (all_lines (block (str "DATA_KEY=") (str "DATA_VAL=") ps) lines)
      ≡ read_lines (at (insert_all ps d) s) lines
unfolding block insert_all
data_block [] d s lines h = refl
data_block ((k, v) ∷ ps) d s lines (h, hs) =
    data_pair k v d s _ h.has_key ∙ data_block ps (insert k v d) s lines hs

secret_block :
    (ps : List (Str × Str)) (d s : Map Str) (lines : List (Option Str))
    → All IsPair ps
    → read_lines (at d s) (all_lines (block (str "SECRET_KEY=") (str "SECRET_VAL=") ps) lines)
      ≡ read_lines (at d (insert_all ps s)) lines
unfolding block insert_all
secret_block [] d s lines h = refl
secret_block ((k, v) ∷ ps) d s lines (h, hs) =
    secret_pair k v d s _ h.has_key ∙ secret_block ps d (insert k v s) lines hs

blank_line :
    (d : Details) (lines : List (Option Str))
    → read_lines d (some [] ∷ lines) ≡ read_lines (record d { current_key = none }) lines
unfolding read_lines read_line is_empty str_eq str
blank_line d lines = refl

done_line :
    (d : Details) (lines : List (Option Str)) → read_lines d (some (str "DONE") ∷ lines) ≡ some d
unfolding read_lines str_eq str
done_line d lines = refl

data_key-IsLine : (k : Str) → IsLine k → IsLine (str "DATA_KEY=" ++ k)
unfolding str any_char strip_cr
data_key-IsLine k h = record { one_line = h.one_line; whole = rw h.whole refl }

data_val-IsLine : (k : Str) → IsLine k → IsLine (str "DATA_VAL=" ++ k)
unfolding str any_char strip_cr
data_val-IsLine k h = record { one_line = h.one_line; whole = rw h.whole refl }

secret_key-IsLine : (k : Str) → IsLine k → IsLine (str "SECRET_KEY=" ++ k)
unfolding str any_char strip_cr
secret_key-IsLine k h = record { one_line = h.one_line; whole = rw h.whole refl }

secret_val-IsLine : (k : Str) → IsLine k → IsLine (str "SECRET_VAL=" ++ k)
unfolding str any_char strip_cr
secret_val-IsLine k h = record { one_line = h.one_line; whole = rw h.whole refl }

void-IsLine : IsLine []
unfolding any_char strip_cr
void-IsLine = record { one_line = refl; whole = refl }

done-IsLine : IsLine (str "DONE")
unfolding str any_char strip_cr
done-IsLine = record { one_line = refl; whole = refl }

lines-block :
    (key val : Str) (ps : List (Str × Str)) (more : List Str) (rest : Str)
    → ((k : Str) → IsLine k → IsLine (key ++ k))
    → ((v : Str) → IsLine v → IsLine (val ++ v))
    → All IsPair ps
    → lines (unlines (block key val ps ++ more) ++ rest)
      ≡ block key val ps ++ lines (unlines more ++ rest)
unfolding block
lines-block key val [] more rest to_key to_val h = refl
lines-block key val ((k, v) ∷ ps) more rest to_key to_val (h, hs) =
    one_more (key ++ k) ((val ++ v) ∷ (block key val ps ++ more)) rest (to_key k h.key_line)
    ∙ ap (λ ls. (key ++ k) ∷ ls)
        (one_more (val ++ v) (block key val ps ++ more) rest (to_val v h.value_line)
          ∙ ap (λ ls. (val ++ v) ∷ ls) (lines-block key val ps more rest to_key to_val hs))

lines-written :
    (data' secrets : List (Str × Str)) (rest : Str)
    → All IsPair data'
    → All IsPair secrets
    → lines (written data' secrets rest)
      ≡ block (str "DATA_KEY=") (str "DATA_VAL=") data'
        ++ []
          ∷ (block (str "SECRET_KEY=") (str "SECRET_VAL=") secrets ++ [] ∷ str "DONE" ∷ lines rest)
unfolding written
lines-written data' secrets rest h k =
    let blocks = block (str "SECRET_KEY=") (str "SECRET_VAL=") secrets in
    lines-block (str "DATA_KEY=") (str "DATA_VAL=") data' ([] ∷ (blocks ++ [] ∷ str "DONE" ∷ []))
      rest data_key-IsLine data_val-IsLine h
    ∙ ap (λ ls. block (str "DATA_KEY=") (str "DATA_VAL=") data' ++ ls)
        (one_more [] (blocks ++ [] ∷ str "DONE" ∷ []) rest void-IsLine
          ∙ ap (λ ls. [] ∷ ls)
              (lines-block (str "SECRET_KEY=") (str "SECRET_VAL=") secrets ([] ∷ str "DONE" ∷ [])
                  rest secret_key-IsLine secret_val-IsLine k
                ∙ ap (λ ls. blocks ++ ls)
                    (one_more [] (str "DONE" ∷ []) rest void-IsLine
                      ∙ ap (λ ls. [] ∷ ls) (one_more (str "DONE") [] rest done-IsLine))))

all_lines-append :
    (ls more : List Str) (t : List (Option Str))
    → map some (ls ++ more) ++ t ≡ all_lines ls (map some more ++ t)
all_lines-append [] more t = refl
all_lines-append (l ∷ ls) more t = ap (λ rest. some l ∷ rest) (all_lines-append ls more t)

-- Data and secrets written in libnm's format, in which no key is empty, and no key or value holds a
-- newline or ends in a carriage return, are read back from standard input: each map has the last
-- value of each key, whatever follows the line `DONE`, and whether or not that can be read.
pub read_vpn_details-written :
    (data' secrets : List (Str × Str)) (rest : Str) (broken : Bool)
    → All IsPair data'
    → All IsPair secrets
    → read_vpn_details (record { text = written data' secrets rest; broken = broken })
      ≡ some (at (insert_all data' empty) (insert_all secrets empty))
unfolding read_vpn_details input_lines
read_vpn_details-written data' secrets rest broken h k = rw (lines-written data' secrets rest h k) (
    ap (read_lines (at empty empty))
      (all_lines-append (block (str "DATA_KEY=") (str "DATA_VAL=") data') _ _)
    ∙ data_block data' empty empty _ h
    ∙ blank_line _ _
    ∙ ap (read_lines (at (insert_all data' empty) empty))
        (all_lines-append (block (str "SECRET_KEY=") (str "SECRET_VAL=") secrets) _ _)
    ∙ secret_block secrets (insert_all data' empty) empty _ k
    ∙ blank_line _ _
    ∙ done_line _ _)
