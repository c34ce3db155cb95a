-- ===== src/Collectors/Tests.antt =====
-- The WireGuard collector at a concrete dump.
use cozy_nm.Base.{ℕ, ◌≡◌, refl, String, map, [], ◌∷◌, length, some, Option}
use cozy_nm.Base.Dicts.{get, assign, contains}
use cozy_nm.Bridges.Decimal.{read_int, rstrip_space}
use cozy_nm.Devices.Scan.{split_on, strip, to_int}
use cozy_nm.Collectors.Wireguard.{read_line, add_line, read_lines, passes, parse_wg_dump}

abbrev dump : String
dump =
    "wg0\tprivate\tpublic\t51820\toff\nwg1\tprivate\tpublic\t51821\toff\nwg0\tkey\t(none)\t(none)\t10.46.0.9/32,10.46.0.10/32\t0\t0\t0\toff\n"

wg0_only :
    map {B = String × Option ℕ × ℕ}
      (λ i. (i.name, i.listen_port, length i.peers))
      (parse_wg_dump dump ("wg0" ∷ []))
    ≡ ("wg0", some 51820, 1) ∷ []
unfolding parse_wg_dump read_lines read_line add_line passes split_on strip to_int read_int
    rstrip_space get assign contains
wg0_only = refl
