-- ===== src/Editor/Reopen.antt =====
-- A dialog that is applied as it was opened.
use nm_openvpn.Base.{Bool, Option, Str, [], ap, arith, false, none, refl, some, str, true, ◌≡◌}
use mathlib.Core.Path.{fun_ext}
use nm_openvpn.Base.Maps.{Map}
use nm_openvpn.Text.{is_empty}
use nm_openvpn.Import.Connection.{Connection}
use nm_openvpn.Editor.Widgets.{Numbers}
use nm_openvpn.Editor.Tree.{build_widget_tree, text}
use nm_openvpn.Editor.Apply.{
  applied, from_id, keep_if, replay, replayed, save, save_unless, set_all, set_secret, set_secrets,
  update_connection, validate_required_fields, widget_values,
}
use nm_openvpn.Editor.Rows.{IsFaithful}
use nm_openvpn.Editor.Settled.{IsSettled, opened_type, rows_written}
use nm_openvpn.Editor.Sets.{set_all-agree}

replayed_same : (k : Str) (o : Option Str) → replayed k o o ≡ o
unfolding replayed
replayed_same k none = refl
replayed_same k (some v) = ground arith

replay_same : (d : Map Str) → replay d d ≡ d
unfolding replay
replay_same d = fun_ext (λ k. replayed_same k (d k))

blank_secret :
    (key : Str) (b : Bool) (secrets : Map Str) → set_secret key (keep_if b []) secrets ≡ secrets
unfolding set_secret keep_if is_empty
blank_secret key true secrets = refl
blank_secret key false secrets = refl

module _ (N : Numbers) (L : IsFaithful N) where
  blank_secrets :
      (ct : Str) (d secrets : Map Str) → set_secrets N ct (build_widget_tree N d) secrets ≡ secrets
  unfolding set_secrets build_widget_tree keep_if
  blank_secrets ct d secrets =
      rw
        (
          blank_secret (str "cert-pass") (from_id ct).needs_user_cert secrets,
          blank_secret (str "password") (from_id ct).needs_password secrets,
        )
        (blank_secret (str "http-proxy-password") true secrets)

  same_items :
      (ct : Str) (d : Map Str)
      → IsSettled ct d
      → set_all
          (widget_values N ct (build_widget_tree N d))
          (replay (build_widget_tree N d).initial_data d)
        ≡ d
  unfolding build_widget_tree
  same_items ct d h = rw (replay_same d) (
      fun_ext (λ j.
        set_all-agree (widget_values N ct (build_widget_tree N d)) d d j (rows_written N L ct d h)
          refl))

  save_same :
      (ct : Str) (c : Connection)
      → IsSettled ct c.items
      → save N ct (build_widget_tree N c.items) c ≡ c
  unfolding save
  save_same ct c h = λ i. record c {
    items = same_items ct c.items h i;
    secrets = blank_secrets ct c.items c.secrets i;
  }

  -- A dialog that is opened on settings in the form that it writes, and applied with nothing
  -- changed, leaves the connection as it was, its secrets included, if no field that its type
  -- requires is empty.
  pub update_connection-build_widget_tree :
      (ct : Str) (c : Connection)
      → IsSettled ct c.items
      → validate_required_fields ct
          (text c.items (str "remote"))
          (text c.items (str "ca"))
          (text c.items (str "cert"))
          (text c.items (str "key"))
          (text c.items (str "username"))
          (text c.items (str "static-key"))
        ≡ none
      → update_connection N (build_widget_tree N c.items) c ≡ applied c
  unfolding update_connection save_unless build_widget_tree
  update_connection-build_widget_tree ct c h complete =
      rw (opened_type N L ct c.items h, complete) (ap applied (save_same ct c h))
