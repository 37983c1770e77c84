-- ===== src/Tests/Netip.antt =====
-- Addresses and prefixes, read and written.
use cloud_route_manager.Base.{codes, ◌≡◌, refl, some, none, []}
use cloud_route_manager.Netip.{v4, v6, parse_addr, parse_prefix, addr_string, prefix_string, masked}

read_v4 : parse_addr (codes "10.1.2.3") ≡ some (v4 0x0a010203)
unfolding parse_addr
read_v4 = refl

read_v6 : parse_addr (codes "2001:db8::1") ≡ some (v6 0x20010db8000000000000000000000001 [])
unfolding parse_addr
read_v6 = refl

read_mapped : parse_addr (codes "::ffff:1.2.3.4%e") ≡ some (v6 0xffff01020304 (codes "e"))
unfolding parse_addr
read_mapped = refl

leading_zero : parse_addr (codes "10.01.2.3") ≡ none
unfolding parse_addr
leading_zero = refl

write_v6 : addr_string (v6 0x20010db8000000000000000000000001 []) ≡ codes "2001:db8::1"
unfolding addr_string
write_v6 = refl

write_ends : addr_string (v6 0x10000000000000000 []) ≡ codes "0:0:0:1::"
unfolding addr_string
write_ends = refl

write_unspecified : addr_string (v6 0 []) ≡ codes "::"
unfolding addr_string
write_unspecified = refl

write_short_run : addr_string (v6 0x00010000000200000003000000000000 []) ≡ codes "1:0:2:0:3::"
unfolding addr_string
write_short_run = refl

write_all : addr_string (v6 0x00010002000300040005000600070008 []) ≡ codes "1:2:3:4:5:6:7:8"
unfolding addr_string
write_all = refl

read_prefix :
    parse_prefix (codes "10.1.2.3/8") ≡ some (record { addr = v4 0x0a010203; bits_plus_one = 9 })
unfolding parse_prefix
read_prefix = refl

mask_prefix :
    masked (record { addr = v4 0x0a010203; bits_plus_one = 9 })
    ≡ record { addr = v4 0x0a000000; bits_plus_one = 9 }
unfolding masked
mask_prefix = refl

write_prefix :
    prefix_string (record { addr = v4 0x0a000000; bits_plus_one = 9 }) ≡ codes "10.0.0.0/8"
unfolding prefix_string
write_prefix = refl

no_bits : parse_prefix (codes "10.1.2.3/08") ≡ none
unfolding parse_prefix
no_bits = refl
