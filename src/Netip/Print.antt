-- ===== src/Netip/Print.antt =====
-- `String` of addresses and prefixes.
use Prim.Native.Nat.{ℕ, zero, suc, ◌+◌, ◌-◌, ◌/◌, ◌%◌, ◌^◌}
use mathlib.Core.Bool.{◌&&◌, ◌||◌}
use mathlib.Core.List.{List, [], ◌∷◌, ◌++◌}
use package.cloud_route_manager.Base.{Text, codes, ◌=ℕ◌, ltb, leb, if◌then◌else◌, is_empty}
use package.cloud_route_manager.Base.Strings.{join_texts}
use package.cloud_route_manager.Base.Decimal.{itoa, hex}
use package.cloud_route_manager.Netip.Defs.{Addr, no_addr, v4, v6, Prefix}

unfoldable pub string_v4 : ℕ → Text
unfolding itoa join_texts
string_v4 n = join_texts (codes ".") (
    itoa (n / 2 ^ 24)
    ∷ itoa (n / 2 ^ 16 % 2 ^ 8)
    ∷ itoa (n / 2 ^ 8 % 2 ^ 8)
    ∷ itoa (n % 2 ^ 8)
    ∷ [])

-- The eight groups of an IPv6 address.
abbrev groups : ℕ → List ℕ
groups n =
    n / 2 ^ 112
    ∷ n / 2 ^ 96 % 2 ^ 16
    ∷ n / 2 ^ 80 % 2 ^ 16
    ∷ n / 2 ^ 64 % 2 ^ 16
    ∷ n / 2 ^ 48 % 2 ^ 16
    ∷ n / 2 ^ 32 % 2 ^ 16
    ∷ n / 2 ^ 16 % 2 ^ 16
    ∷ n % 2 ^ 16
    ∷ []

-- How many groups at the head of the list are zero.
run_length : List ℕ → ℕ
run_length [] = 0
run_length (g ∷ gs) = if g =ℕ 0 then suc (run_length gs) else 0

-- The first of the longest runs of two zero groups or more, as its start and its length; a length of
-- 0 is none.
longest_run : List ℕ → ℕ → ℕ → ℕ → ℕ × ℕ
unfolding run_length
longest_run [] i start len = (start, len)
longest_run (g ∷ gs) i start len =
    if leb 2 (run_length (g ∷ gs)) && ltb len (run_length (g ∷ gs))
    then longest_run gs (i + 1) i (run_length (g ∷ gs))
    else longest_run gs (i + 1) start len

-- `skip` groups of the run are still to be left out.
write_groups : List ℕ → ℕ → ℕ → ℕ → ℕ → Text
unfolding hex
write_groups [] i start len skip = []
write_groups (g ∷ gs) i start len (suc skip) = write_groups gs (i + 1) start len skip
write_groups (g ∷ gs) i start len zero =
    let elided = write_groups gs (i + 1) start len (len - 1) in
    let rest = write_groups gs (i + 1) start len 0 in
    if ltb 0 len && i =ℕ start
    then codes "::" ++ elided
    else if ltb 0 i && (leb (start + len + 1) i || leb (i + 1) start || len =ℕ 0)
    then b':' ∷ (hex g ++ rest)
    else hex g ++ rest

string_v6 : ℕ → Text → Text
unfolding longest_run write_groups string_v4
string_v6 n zone =
    let (start, len) = longest_run (groups n) 0 0 0 in
    let body =
      if n / 2 ^ 32 =ℕ 0xffff
      then codes "::ffff:" ++ string_v4 (n % 2 ^ 32)
      else write_groups (groups n) 0 start len 0 in
    if is_empty zone then body else body ++ (b'%' ∷ zone)

-- `addr.String()`
unfoldable pub addr_string : Addr → Text
unfolding string_v4 string_v6
addr_string no_addr = codes "invalid IP"
addr_string (v4 n) = string_v4 n
addr_string (v6 n z) = string_v6 n z

-- `p.String()`
unfoldable pub prefix_string : Prefix → Text
unfolding addr_string itoa
prefix_string p =
    if leb 1 p.bits_plus_one
    then addr_string p.addr ++ (b'/' ∷ itoa (p.bits_plus_one - 1))
    else codes "invalid Prefix"
