-- ===== src/Tests/Data.antt =====
-- Prefixes that are used as examples.
use cloud_route_manager.Base.{refl, [], ◌∷◌, List, All, is_empty, ◌≡◌, false}
use cloud_route_manager.Base.Strings.{trim_space}
use cloud_route_manager.Netip.{
  v4, Addr, Prefix, masked, parse_prefix, prefix_string, prefix_from, IsReadBack, addr_string,
}

abbrev pub ten : Prefix
ten = record { addr = v4 0x0a000000; bits_plus_one = 9 }

abbrev pub office : Prefix
office = record { addr = v4 0xc0a80500; bits_plus_one = 25 }

abbrev pub router : Addr
router = v4 0x0a000001

pub ten-IsReadBack : IsReadBack ten
unfolding prefix_string parse_prefix masked trim_space prefix_from
ten-IsReadBack = record { trimmed = refl; read_back = refl; is_masked = refl }

pub office-IsReadBack : IsReadBack office
unfolding prefix_string parse_prefix masked trim_space prefix_from
office-IsReadBack = record { trimmed = refl; read_back = refl; is_masked = refl }

abbrev pub both : List Prefix
both = ten ∷ office ∷ []

pub both-IsReadBack : All IsReadBack both
both-IsReadBack = (ten-IsReadBack, (office-IsReadBack, tt))

pub router_string : is_empty (addr_string router) ≡ false
unfolding addr_string
router_string = refl
