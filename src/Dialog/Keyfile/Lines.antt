-- ===== src/Dialog/Keyfile/Lines.antt =====
-- The key file has the lines that are written, and no others: no value breaks a line.
use nm_openvpn.Base.{
  Bool, List, Str, [], ap, append-nil, append_assoc, arith, false, refl, str, sym, true, ℕ, ◌&&◌,
  ◌++◌, ◌==◌, ◌∙◌, ◌∷◌, ◌≡◌,
}
use nm_openvpn.Base.Lists.{All, All-append}
use nm_openvpn.Text.{any_char, lines, strip_cr}
use nm_openvpn.Text.Laws.{unlines, unlines-append, IsLine, lines-unlines, or-false, any_char-append}
use nm_openvpn.Dialog.Needs.{Needed}
use nm_openvpn.Dialog.Keyfile.{
  escape, writeln, print_bool, write_all, write_entry, write_eui_keyfile,
}
use nm_openvpn.Dialog.Keyfile.Escape.{is_break, escape_break}

break_char : (c : ℕ) → is_break c ≡ false → ((c == b'\n') ≡ false) × ((c == b'\r') ≡ false)
break_char c h = ground arith

no_break-IsLine : (l : Str) → any_char is_break l ≡ false → IsLine l
unfolding any_char strip_cr
no_break-IsLine [] h = record { one_line = refl; whole = refl }
no_break-IsLine (c ∷ l) h =
    let (here, there) = or-false (is_break c) _ h in
    let rest = no_break-IsLine l there in
    let (newline, return) = break_char c here in
    record {
      one_line = rw newline rest.one_line;
      whole = rw (return, strip_cr) (ap (◌∷◌ c) rest.whole);
    }

-- `name=` and an escaped value, for a name with no line break
value-IsLine : (name s : Str) → any_char is_break name ≡ false → IsLine (name ++ escape s)
value-IsLine name s h =
    no_break-IsLine _ (any_char-append is_break name (escape s) ∙ rw (h, escape_break s) refl)

print_bool-IsLine :
    (name : Str) (b : Bool) → any_char is_break name ≡ false → IsLine (name ++ print_bool b)
unfolding print_bool any_char str
print_bool-IsLine name true h = no_break-IsLine _ (any_char-append is_break name _ ∙ rw h refl)
print_bool-IsLine name false h = no_break-IsLine _ (any_char-append is_break name _ ∙ rw h refl)

write_all_lem : (ls : List Str) (out : Str) → write_all out ls ≡ out ++ unlines ls
unfolding write_all writeln
write_all_lem [] out = sym (append-nil out)
write_all_lem (l ∷ ls) out = write_all_lem ls _ ∙ simp append_assoc

unfoldable pub entry_lines : Str → Str → Bool → Bool → List Str
entry_lines key label force_echo should_ask =
    []
    ∷ (b'[' ∷ (key ++ b']' ∷ []))
    ∷ (str "Value=" ++ escape [])
    ∷ (str "Label=" ++ escape label)
    ∷ str "IsSecret=true"
    ∷ (str "ShouldAsk=" ++ print_bool should_ask)
    ∷ (str "ForceEcho=" ++ print_bool force_echo)
    ∷ []

unfoldable pub head_lines : (Str → Str) → Str → List Str
head_lines tr prompt =
    str "[VPN Plugin UI]"
    ∷ str "Version=2"
    ∷ (str "Description=" ++ escape prompt)
    ∷ (str "Title=" ++ escape (tr (str "Authentication required")))
    ∷ []

unfoldable pub keyfile_lines : (Str → Str) → Str → Needed → Bool → List Str
keyfile_lines tr prompt needed allow =
    head_lines tr prompt
    ++ (entry_lines (str "password") (tr (str "Password")) false (needed.password && allow)
        ++ (entry_lines (str "cert-pass") (tr (str "Certificate password")) false
              (needed.certpass && allow)
            ++ (entry_lines (str "http-proxy-password") (tr (str "HTTP proxy password")) false
                  (needed.proxypass && allow)
                ++ entry_lines (str "challenge-response") (tr (str "Challenge response"))
                    needed.challenge_response_echo (needed.challenge_response && allow))))

write_entry_lem :
    (out key label : Str) (echo ask : Bool)
    → write_entry out key [] label echo ask ≡ out ++ unlines (entry_lines key label echo ask)
unfolding write_entry entry_lines
write_entry_lem out key label echo ask = write_all_lem (entry_lines key label echo ask) out

entry_lines-IsLine :
    (key label : Str) (echo ask : Bool)
    → any_char is_break key ≡ false
    → All IsLine (entry_lines key label echo ask)
unfolding str any_char entry_lines
entry_lines-IsLine key label echo ask h = (
  no_break-IsLine [] refl,
  (
    no_break-IsLine _ (any_char-append is_break key (b']' ∷ []) ∙ rw h refl),
    (
      value-IsLine (str "Value=") [] refl,
      (
        value-IsLine (str "Label=") label refl,
        (
          no_break-IsLine _ refl,
          (
            print_bool-IsLine (str "ShouldAsk=") ask refl,
            (print_bool-IsLine (str "ForceEcho=") echo refl, tt),
          ),
        ),
      ),
    ),
  ),
)

head_lines-IsLine : (tr : Str → Str) (prompt : Str) → All IsLine (head_lines tr prompt)
unfolding str any_char head_lines
head_lines-IsLine tr prompt = (
  no_break-IsLine _ refl,
  (
    no_break-IsLine _ refl,
    (
      value-IsLine (str "Description=") prompt refl,
      (value-IsLine (str "Title=") (tr (str "Authentication required")) refl, tt),
    ),
  ),
)

keyfile-IsLine :
    (tr : Str → Str) (prompt : Str) (needed : Needed) (allow : Bool)
    → All IsLine (keyfile_lines tr prompt needed allow)
unfolding str any_char keyfile_lines
keyfile-IsLine tr prompt needed allow = All-append IsLine _ _ (head_lines-IsLine tr prompt) (
    All-append IsLine _ _ (entry_lines-IsLine _ _ _ _ refl) (
      All-append IsLine _ _ (entry_lines-IsLine _ _ _ _ refl) (
        All-append IsLine _ _ (entry_lines-IsLine _ _ _ _ refl) (entry_lines-IsLine _ _ _ _ refl))))

write_eui_keyfile_lem :
    (tr : Str → Str) (out prompt : Str) (needed : Needed) (allow : Bool)
    → write_eui_keyfile tr out prompt needed allow
      ≡ out ++ unlines (keyfile_lines tr prompt needed allow)
unfolding write_eui_keyfile keyfile_lines head_lines
write_eui_keyfile_lem tr out prompt needed allow =
    simp (write_entry_lem, write_all_lem, unlines-append, append_assoc)

-- Whatever the prompt and the translations hold, the text of the key file has exactly these lines.
pub lines-write_eui_keyfile :
    (tr : Str → Str) (prompt : Str) (needed : Needed) (allow : Bool)
    → lines (write_eui_keyfile tr [] prompt needed allow) ≡ keyfile_lines tr prompt needed allow
lines-write_eui_keyfile tr prompt needed allow =
    rw (write_eui_keyfile_lem tr [] prompt needed allow)
      (lines-unlines _ (keyfile-IsLine tr prompt needed allow))
