-- ===== src/Settings/Remote/Tests.antt =====
-- The table of share/settings/remote_test.go.
use chisel_uds.Prelude.{
  Text, codes, Bool, true, refl, ◌≡◌, has_prefix, has_suffix, text_eq, trim_prefix, trim_space, cut,
  cut_last, has_byte,
}
use chisel_uds.Settings.Number.{is_port}
use chisel_uds.Settings.HostPort.{split_host_port}
use chisel_uds.Settings.Remote.{decode_remote, set_proto}
use chisel_uds.Settings.Remote.Tokens.{find_parts, l4_proto}
use chisel_uds.Settings.Remote.Uds.{decode_uds_remote}
use chisel_uds.Settings.Remote.Types.{
  Result, ok, err, is_uds, ◌>>=◌, requires_reverse, invalid_remote, invalid_mode, invalid_host,
  missing_ports,
}
use chisel_uds.Settings.Remote.Print.{encode}

abbrev any_host : Text → Bool
any_host s = true

abbrev again : Text → Result Text
again s = decode_remote any_host s >>= λ r. ok (encode r)

decode_table :
    (again (codes "3000") ≡ ok (codes "0.0.0.0:3000:127.0.0.1:3000"))
    × (again (codes "google.com:80") ≡ ok (codes "0.0.0.0:80:google.com:80"))
    × (again (codes "R:google.com:80") ≡ ok (codes "R:0.0.0.0:80:google.com:80"))
    × (again (codes "socks") ≡ ok (codes "127.0.0.1:1080:socks"))
    × (again (codes "127.0.0.1:1081:socks") ≡ ok (codes "127.0.0.1:1081:socks"))
    × (again (codes "1.1.1.1:53/udp") ≡ ok (codes "0.0.0.0:53:1.1.1.1:53/udp"))
    × (again (codes "localhost:5353:1.1.1.1:53/udp") ≡ ok (codes "localhost:5353:1.1.1.1:53/udp"))
    × (again (codes "[::1]:8080:google.com:80") ≡ ok (codes "[::1]:8080:google.com:80"))
    × (again (codes "R:[::]:3000:[::1]:3000") ≡ ok (codes "R:[::]:3000:[::1]:3000"))
    × (again (codes "R:uds-listen:/tmp/l.sock:127.0.0.1:8080")
        ≡ ok (codes "R:uds-listen:/tmp/l.sock:127.0.0.1:8080"))
    × (again (codes "R:uds-pair:/tmp/p.sock:localhost:9000")
        ≡ ok (codes "R:uds-pair:/tmp/p.sock:localhost:9000"))
unfolding decode_remote set_proto encode find_parts l4_proto decode_uds_remote is_port
    split_host_port has_prefix has_suffix text_eq trim_prefix trim_space cut cut_last has_byte
    is_uds
decode_table = (refl, refl, refl, refl, refl, refl, refl, refl, refl, refl, refl)

decode_table_errors :
    (again (codes "uds-listen:/tmp/a.sock:127.0.0.1:80") ≡ err requires_reverse)
    × (again (codes "R:uds-listen::127.0.0.1:80") ≡ err invalid_remote)
    × (again (codes "R:uds-listen:/tmp/a.sock::80") ≡ err invalid_host)
    × (again (codes "R:uds-listen:/tmp/a.sock:127.0.0.1:not-a-port") ≡ err missing_ports)
    × (again (codes "R:uds-unknown:/tmp/a.sock:127.0.0.1:80") ≡ err invalid_mode)
unfolding decode_remote set_proto encode find_parts l4_proto decode_uds_remote is_port
    split_host_port has_prefix has_suffix text_eq trim_prefix trim_space cut cut_last has_byte
    is_uds
decode_table_errors = (refl, refl, refl, refl, refl)
