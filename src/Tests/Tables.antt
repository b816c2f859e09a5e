-- ===== src/Tests/Tables.antt =====
-- The route table of a device, and an application of the result on it.
use nm_openvpn.Base.{List, [], arith, refl, str, str_eq, true, ◌∷◌, ◌≡◌}
use nm_openvpn.Text.{
  count_ones, cut, drop_empty, from_str_radix, is_whitespace, lines, parse_u32, split,
  split_whitespace,
}
use nm_openvpn.Routes.{
  Route, has_default_route, any, parse_proc_routes, read_rows, read_cols, route_of, push_route,
  after_header,
}
use nm_openvpn.Routes.Cover.{covers, has_default_route-covers}

-- The rows of a table as the kernel prints it.
abbrev split_table : List Route
split_table =
    record { dest_be = 0; prefix = 1; next_hop_be = 0; metric = 50 }
    ∷ record { dest_be = 0x80; prefix = 1; next_hop_be = 0; metric = 50 }
    ∷ []

split_table_lem : has_default_route split_table ≡ true
unfolding has_default_route
split_table_lem = refl

has_default_route-covers_example : any (covers 0xc0a80001) split_table ≡ true
has_default_route-covers_example =
    has_default_route-covers split_table 0xc0a80001 (omega arith) split_table_lem

-- A header, a row of the device, a short row, and a row of another device.
parsed_table :
    parse_proc_routes
      (str
        "Iface\tDestination\ntun0\t0000000A\t0100000A\t0003\t0\t0\t50\t000000FF\t0\t0\t0\ntun0\t00\neth0\t0\t0\t0\t0\t0\t0\t0\t0\t0\t0\n")
      (str "tun0")
    ≡ record { dest_be = 10; prefix = 8; next_hop_be = 16777226; metric = 50 } ∷ []
unfolding parse_proc_routes read_rows read_cols route_of push_route after_header lines
    split_whitespace from_str_radix parse_u32 count_ones str_eq str drop_empty split cut
    is_whitespace
parsed_table = refl
