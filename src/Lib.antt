-- ===== src/Lib.antt =====
-- nm-openvpn3: a NetworkManager VPN service plugin for OpenVPN 3 Linux.
--
-- The program has two halves that share the settings of a connection (the `vpn.data` dictionary).
-- The properties plugin reads and writes .ovpn files; the service builds a profile from the
-- settings when NetworkManager connects, imports it into openvpn3, starts a session, watches the
-- session from background tasks, and reports states, the IP configuration and failures.
--
-- Which file models which part (a source file stands in nm-openvpn3-service/src unless another
-- crate is named):
--   Base, Text    Strings are lists of code points; `trim`, `lines`, `split`, `strip_prefix`,
--                 `parse::<i64>` and other functions of the standard library.
--   Quote         `tokenize` and `push_escaped` of nm-openvpn3-properties/src/import_export.rs.
--                 The two loops of `tokenize` are one scan: a `Place` is where it stands.
--   Ovpn          `OvpnConfig` of the same file: `parse`, `validate`, `emit`, `option`, `blob`. The
--                 inner loop of `parse` over a blob is a place of the reader.
--   Profile       build_profile.rs: `build_profile_string` block by block, its `Writer`, and the gate
--                 `is_safe_route_line`. Settings are a function from keys to values.
--   Export        `from_nm_data` of import_export.rs, block by block. The gate for routes and the test
--                 for PKCS#12 paths stand word for word in both crates, and are one definition.
--   Import        `as_nm_data` of import_export.rs. The `match` on the name of an option is a table of
--                 arms; a function says what an arm puts into the map, another what it notes.
--                 Import/Connection and Export/Pinned are `ovpn_text_to_connection` and
--                 `connection_to_ovpn_text` of bridge.rs beside it, with the system as a parameter.
--   Status        status.rs and state.rs: the pairs on the wire, the states and failures of
--                 NetworkManager.
--   Session       plugin.rs: `spawn_status_listener`, `spawn_status_poller`,
--                 `spawn_attention_listener`, `set_state_via`, `emit_failure_once`. What a task does
--                 on an event is a `Code`, whose accesses to shared state are steps of their own, so
--                 any number of tasks interleave between them; a task may be aborted anywhere.
--   Coord         plugin.rs and connect_coord.rs: `connect`, `do_connect`, `cleanup_session`,
--                 `disconnect`, as steps of the handler that holds the coordinator's lock. Any
--                 number of Disconnects set the flag and wait at any time. Openvpn3 is seen as the
--                 counts of the sessions and configs that it was made to have, and of what was asked
--                 for them; an Import or a NewTunnel that fails may have been carried out all the
--                 same. Whether openvpn3 drops a session by itself, and how long a call takes, is
--                 left open.
--   Routes        routes.rs: `parse_proc_routes`, `has_default_route`. The host is little-endian, as
--                 the source assumes.
--   Ip4           ip4.rs: `emit`, with what openvpn3, the interfaces, the resolver and the routing
--                 table answer as a record, and `classify_gateway_host` with the literals that the
--                 standard library takes.
--   Retry         ovpn3-client/src/retry.rs: `with_activation_retry`. What zbus makes of an error is a
--                 parameter.
--   Secrets       secrets.rs and connection.rs; `handle_attention` and `new_secrets` of plugin.rs, each
--                 with the calls it makes and the part of `SessionState` that it reads and writes;
--                 `session_fetch_input_slots` of ovpn3-client/src/lib.rs. A `HashMap` is its lookup
--                 function, and the conversions of D-Bus values are a record of functions.
--   Dialog        nm-openvpn3-auth-dialog/src/main.rs: `read_vpn_details`, `needs`, and the writers of
--                 the key file, composed by `run`. Standard input is a text, up to a line that
--                 cannot be read; the file system and gettext are parameters.
--   Editor        nm-openvpn3-editor/src/editor.rs: the rows as what they hold. `build_widget_tree`
--                 is Tree, over the tables and `combo_row` of Widgets; `iface_update_connection`
--                 is `update_connection` of Apply; Visible has the handlers that show and hide rows
--                 as steps of the user, the closure of the connection type on its own. `f64` and the
--                 range of a spin row are a parameter, on which Rows says what is relied on: whole
--                 numbers within the range come back as they were.
--   Files         nm-openvpn3-properties/src/bridge.rs and plugin.rs: `read_small_regular_file`,
--                 `read_profile_securely`, `write_blob_securely`, `export_connection_to_path`, and the
--                 entry points that import and export a file. A disk is a function from paths to what
--                 stands there; which calls fail, and what another program plants in between, is a
--                 record.
--   Owner         plugin.rs: `username_to_uid`, `lowest_run_user_uid` and the choice of `do_connect`
--                 between them, with the answers of the system as a record; `apply_overrides` as the
--                 calls that it makes.
--   Prepare       plugin.rs: the part of `do_connect` that reads the settings and the pinned file or
--                 builds the profile, up to the name and the text that openvpn3 gets. The guarded
--                 read there takes the same steps as the ones in Files, and is the same definition.
--   Stats         plugin.rs: `spawn_stats_timer` and `byte_rate`, as the lines that are logged, with
--                 `f64` as a parameter.
--   Tests         Concrete runs, and an application of each result.
--
-- How they meet: Ovpn writes each word with Quote; Profile has the service's copy of the quoting
-- and meets Quote in Profile/Clean; Export takes route lines apart with Quote, and its directives
-- go through Ovpn and come back through Import; Session reads the wire with Status; Coord counts
-- the tasks that Session runs; the hints that Secrets sends are read by Dialog, through
-- NetworkManager, and what the user answers comes back to Secrets as settings. What Editor writes is
-- read by Profile and by Owner; Files puts what Export prints on the disk and reads what Import gets.
--
-- Bounds: a decimal number is printed with the digits that its value has, on fuel of twenty digits,
-- which every 64-bit number fits in. `parse::<u32>` and `parse::<i64>` refuse what does not fit.
-- `getpwnam_r` is called at most 22 times: each call that is too small doubles the buffer, and the
-- source gives up at 1 MiB. A guarded read takes one byte more than its bound.
-- The counters of the poller are natural numbers: `ticks` is a u32 in the source, starts again from
-- 0 at Started, and would wrap after centuries.
--
-- Not modelled: D-Bus itself (a call that may fail is a step that may go either way, or an answer
-- that is given), other log lines, the wording of errors. Of the dialog:
-- titles, labels, tooltips, file choosers, the red mark on a missing file, translation, and the
-- GObject boilerplate. Of the libnm plugin: the bindings, null checks, `secure_cert_dir` and the
-- loading of the editor module. A signal that cannot be sent is lost, as in the source; in Session,
-- an emitter that cannot be built is left out.
pub mod Base
pub mod Text
pub mod Quote
pub mod Ovpn
pub mod Profile
pub mod Export
pub mod Import
pub mod Status
pub mod Session
pub mod Coord
pub mod Routes
pub mod Ip4
pub mod Retry
pub mod Dialog
pub mod Editor
pub mod Files
pub mod Secrets
pub mod Owner
pub mod Prepare
pub mod Stats
pub mod Tests
