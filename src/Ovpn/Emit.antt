-- ===== src/Ovpn/Emit.antt =====
-- `OvpnConfig::emit`: the text of a config.
use nm_openvpn.Base.{List, Str, [], if◌then◌else◌, not, ◌++◌, ◌∷◌}
use nm_openvpn.Text.{ends_with}
use nm_openvpn.Ovpn.Defs.{Directive, option, blob, OvpnConfig}
use nm_openvpn.Quote.{push_escaped, push_args}

-- `if !body.ends_with('\n') { out.push('\n') }`
unfoldable pub close_body : Str → Str → Str
close_body body out = if not (ends_with (b'\n' ∷ []) body) then out ++ b'\n' ∷ [] else out

unfoldable pub emit_directive : Str → Directive → Str
emit_directive out (option name args) = push_args (push_escaped out name) args ++ b'\n' ∷ []
emit_directive out (blob name body) =
    let opened = ((out ++ b'<' ∷ []) ++ name) ++ b'>' ∷ b'\n' ∷ [] in
    let filled = close_body body (opened ++ body) in
    ((filled ++ b'<' ∷ b'/' ∷ []) ++ name) ++ b'>' ∷ b'\n' ∷ []

unfoldable pub emit_from : Str → List Directive → Str
emit_from out [] = out
emit_from out (d ∷ ds) = emit_from (emit_directive out d) ds

unfoldable pub emit : OvpnConfig → Str
unfolding ends_with push_escaped push_args close_body emit_directive emit_from
emit cfg = emit_from [] cfg.directives
