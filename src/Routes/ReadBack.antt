-- ===== src/Routes/ReadBack.antt =====
-- internal/routes/routes.go: the IPv4 routes that `Parse` returns, printed and parsed again.
use cloud_route_manager.Base.{
  ◌≡◌, ap, ◌≤◌, Text, true, arith, ok, Option-cases, Bool-cases, inl, inr, subst, All,
}
use cloud_route_manager.Base.Strings.{trim_space, has_char}
use cloud_route_manager.Netip.{
  Addr, Prefix, IsReadBack, IsBounded, masked, prefix_from, bit_len, unmap, is4, parse_addr,
  parse_prefix, prefix_string, parse_addr-IsBounded, parse_prefix-IsBounded, unmap-IsBounded,
  prefix_from-IsBounded, masked-IsBounded, IsReadBack-of_canonical, prefix_string-slash,
}
use cloud_route_manager.Routes.{parse_one, parse}
use cloud_route_manager.Routes.Parsing.{parse_one-IsCanonical}
use cloud_route_manager.Routes.Invariance.{parse-All}

host-IsBounded :
    (a : Addr) → IsBounded (unmap a) → IsBounded (prefix_from (unmap a) (bit_len (unmap a))).addr
host-IsBounded a h = prefix_from-IsBounded (unmap a) (bit_len (unmap a)) h

parse_one-IsBounded : (t : Text) (p : Prefix) → parse_one t ≡ ok p → IsBounded p.addr
unfolding parse_one
parse_one-IsBounded token p h =
    let t = trim_space token in
    elim (Bool-cases (has_char b'/' t)) [
      | inl slash ↦ elim (Option-cases (parse_prefix t)) [
        | inl e ↦ absurd (ground arith)
        | inr (q, e) ↦
            let k : masked q ≡ p = ground arith in
            subst (λ (p : Prefix). IsBounded p.addr) k
              (masked-IsBounded q (parse_prefix-IsBounded t q e))
      ]
      | inr bare ↦ elim (Option-cases (parse_addr t)) [
        | inl e ↦ absurd (ground arith)
        | inr (a, e) ↦
            let k : prefix_from (unmap a) (bit_len (unmap a)) ≡ p = ground arith in
            subst (λ (p : Prefix). IsBounded p.addr) k
              (host-IsBounded a (unmap-IsBounded a (parse_addr-IsBounded t a e)))
      ]
    ]

-- A prefix that is read back is parsed from its text.
parse_one-string :
    (p : Prefix) → 1 ≤ p.bits_plus_one → IsReadBack p → parse_one (prefix_string p) ≡ ok p
unfolding parse_one
parse_one-string p h r =
    let (full, slash) = prefix_string-slash p h in
    rw (r.trimmed, full, slash, r.read_back) (ap (λ q. ok q) r.is_masked)

abbrev IsPrinted : Prefix → Type 0
IsPrinted p = is4 p.addr ≡ true → (parse_one (prefix_string p) ≡ ok p) × IsReadBack p

parse_one-IsPrinted : (t : Text) (p : Prefix) → parse_one t ≡ ok p → IsPrinted p
parse_one-IsPrinted t p h k =
    let c = parse_one-IsCanonical t p h in
    let r = IsReadBack-of_canonical p c k (parse_one-IsBounded t p h) in
    (parse_one-string p c.within.0 r, r)

pub parse_one-IsReadBack :
    (t : Text) (p : Prefix) → parse_one t ≡ ok p → is4 p.addr ≡ true → IsReadBack p
parse_one-IsReadBack t p h k = (parse_one-IsPrinted t p h k).1

-- Every IPv4 route that `Parse` returns is the one that `ParseOne` makes of its text, and it is read
-- back from it by `netip` with nothing to trim or to mask.
pub parse-printed :
    (raw : Text)
    → All
        (λ p. is4 p.addr ≡ true → (parse_one (prefix_string p) ≡ ok p) × IsReadBack p)
        (parse raw).0
parse-printed raw = parse-All IsPrinted parse_one-IsPrinted raw
