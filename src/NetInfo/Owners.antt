-- ===== src/NetInfo/Owners.antt =====
-- internal/netinfo/netinfo.go: what the loops over interfaces and over their addresses find.
use cloud_route_manager.Base.{
  ℕ, ==_iff, ◌⊎◌, Error, ◌≡◌, refl, ap, sym, ◌∙◌, Text, true, false, List, [], ◌∷◌, ◌++◌, arith,
  Option, none, some, Option-cases, Result, ok, err, Result-cases, ok-injective, All, Bool-cases,
  inl, inr, eq_self, subst,
}
use mathlib.Core.Option
use cloud_route_manager.Netip.{Addr, addr_eq, unmap, is4}
use cloud_route_manager.NetInfo.{
  NetAddr, ip_net, other, addr_from_slice, same_addr, is_loopback, is_link_local, Interface,
  entry_addr, owns, owns_result, find_owner, usable, if_usable, first_usable, first_of,
}

-- An entry of the kernel carries an address: its bytes make it, unmapped.
abbrev pub Carries : NetAddr → Addr → Type 0
Carries e a =
    (bytes : List ℕ) × (b : Addr) × (e ≡ ip_net bytes)
    × (addr_from_slice bytes ≡ some b)
    × (unmap b ≡ a)

-- An entry of the list carries the address.
abbrev pub IsAmong : Addr → List NetAddr → Type 0
IsAmong a [] = ⊥
IsAmong a (e ∷ entries) = Carries e a ⊎ IsAmong a entries

-- The addresses of the interface can be read, and the address is among them.
abbrev pub Owns : Interface → Addr → Type 0
Owns i a = (entries : List NetAddr) × (i.addrs ≡ ok entries) × IsAmong a entries

-- The first interface of the list that owns an address.
abbrev pub IsFirstOwner : Addr → List Interface → Interface → Type 0
IsFirstOwner a is i =
    (pre : List Interface) × (post : List Interface) × (is ≡ pre ++ (i ∷ post))
    × All (λ j. ¬ Owns j a) pre
    × Owns i a

-- An address that is no loopback and no link-local one, of IPv4.
abbrev pub IsRoutable : Addr → Type 0
IsRoutable a = (is4 a ≡ true) × (is_loopback a ≡ false) × (is_link_local a ≡ false)

-- The first such address of the entries.
abbrev pub IsFirstRoutable : Addr → List NetAddr → Type 0
IsFirstRoutable a entries =
    (pre : List NetAddr) × (e : NetAddr) × (post : List NetAddr) × (entries ≡ pre ++ (e ∷ post))
    × All (λ d. (b : Addr) → Carries d b → ¬ IsRoutable b) pre
    × Carries e a
    × IsRoutable a

-- What the loops test of an entry.
entry_addr-Carries : (e : NetAddr) (a : Addr) → entry_addr e ≡ some a → Carries e a
unfolding entry_addr
entry_addr-Carries other a h = cc h
entry_addr-Carries (ip_net bytes) a h = elim (Option-cases (addr_from_slice bytes)) [
  | inl q ↦ absurd (ground (arith, q, h))
  | inr (b, q) ↦ (bytes, b, refl, q, ground (arith, q, h))
]

Carries-entry_addr : (e : NetAddr) (a : Addr) → Carries e a → entry_addr e ≡ some a
unfolding entry_addr
Carries-entry_addr e a (bytes, b, p, q, r) =
    ap entry_addr p ∙ (ap (Option.map unmap) q ∙ ap (λ x. some x) r)

same_addr-Carries : (e : NetAddr) (a : Addr) → same_addr a (entry_addr e) ≡ true → Carries e a
same_addr-Carries e a h = elim (Option-cases (entry_addr e)) [
  | inl q ↦ absurd (ground (arith, q, h))
  | inr (b, q) ↦
      let same = (==_iff b a).0 (ap (same_addr a) (sym q) ∙ h) in
      entry_addr-Carries e a (q ∙ ap (λ x. some x) same)
]

owns-IsAmong : (a : Addr) (entries : List NetAddr) → owns a entries ≡ true → IsAmong a entries
unfolding owns
owns-IsAmong a [] h = cc h
owns-IsAmong a (e ∷ entries) h = elim (Bool-cases (same_addr a (entry_addr e))) [
  | inl q ↦ inl (same_addr-Carries e a q)
  | inr q ↦ inr (owns-IsAmong a entries (ground (arith, q, h)))
]

IsAmong-owns : (a : Addr) (entries : List NetAddr) → IsAmong a entries → owns a entries ≡ true
unfolding owns
IsAmong-owns a [] m = absurd m
IsAmong-owns a (e ∷ entries) (inl c) =
    let same = ap (same_addr a) (Carries-entry_addr e a c) ∙ eq_self a in ground (arith, same)
IsAmong-owns a (e ∷ entries) (inr m) = let h = IsAmong-owns a entries m in ground (arith, h)

owns_result-Owns : (i : Interface) (a : Addr) → owns_result a i.addrs ≡ true → Owns i a
owns_result-Owns i a h = elim (Result-cases i.addrs) [
  | inl (entries, e) ↦ (entries, e, owns-IsAmong a entries (ap (owns_result a) (sym e) ∙ h))
  | inr (x, e) ↦ let bad = ap (owns_result a) (sym e) ∙ h in cc bad
]

not-Owns : (i : Interface) (a : Addr) → owns_result a i.addrs ≡ false → ¬ Owns i a
not-Owns i a h (entries, e, m) =
    let bad = sym h ∙ (ap (owns_result a) e ∙ IsAmong-owns a entries m) in cc bad

pub find_owner-ok :
    (a : Addr) (is : List Interface) (i : Interface) → find_owner a is ≡ ok i → IsFirstOwner a is i
unfolding find_owner
find_owner-ok a [] i h = cc h
find_owner-ok a (j ∷ is) i h = elim (Bool-cases (owns_result a j.addrs)) [
  | inl e ↦
      let q : j ≡ i = ok-injective (rw (e, find_owner) at h) in
      ([], is, ap (λ x. x ∷ is) q, tt, subst (λ x. Owns x a) q (owns_result-Owns j a e))
  | inr e ↦
      let (pre, post, q, none_before, o) = find_owner-ok a is i (rw (e, find_owner) at h) in
      (j ∷ pre, post, ap (λ l. j ∷ l) q, (not-Owns j a e, none_before), o)
]

pub find_owner-err :
    (a : Addr) (is : List Interface) (x : Error)
    → find_owner a is ≡ err x
    → All (λ j. ¬ Owns j a) is
unfolding find_owner
find_owner-err a [] x h = tt
find_owner-err a (j ∷ is) x h = elim (Bool-cases (owns_result a j.addrs)) [
  | inl e ↦ let bad : ok j ≡ err x = rw (e, find_owner) at h in cc bad
  | inr e ↦ (not-Owns j a e, find_owner-err a is x (rw (e, find_owner) at h))
]

usable-IsRoutable : (a : Addr) → usable a ≡ true → IsRoutable a
usable-IsRoutable a h = (ground (arith, h), ground (arith, h), ground (arith, h))

not-usable : (a : Addr) → usable a ≡ false → ¬ IsRoutable a
not-usable a h (x, y, z) = ground (arith, h, x, y, z)

if_usable-some :
    (o : Option Addr) (a : Addr) → if_usable o ≡ some a → (o ≡ some a) × (usable a ≡ true)
if_usable-some none a h = cc h
if_usable-some (some b) a h = elim (Bool-cases (usable b)) [
  | inl e ↦
      let q : b ≡ a = ground (arith, e, h) in (ap (λ x. some x) q, subst (λ x. usable x ≡ true) q e)
  | inr e ↦ absurd (ground (arith, e, h))
]

if_usable-none : (o : Option Addr) (a : Addr) → if_usable o ≡ none → o ≡ some a → ¬ IsRoutable a
if_usable-none o a h q = elim (Bool-cases (usable a)) [
  | inl e ↦ let bad = sym h ∙ ap if_usable q in absurd (ground (arith, e, bad))
  | inr e ↦ not-usable a e
]

first_usable-some :
    (entries : List NetAddr) (a : Addr) → first_usable entries ≡ some a → IsFirstRoutable a entries
unfolding first_usable
first_usable-some [] a h = cc h
first_usable-some (e ∷ entries) a h = elim (Option-cases (if_usable (entry_addr e))) [
  | inl q ↦
      let (pre, d, post, same, none_before, c, r) =
        first_usable-some entries a (rw (q, first_usable) at h) in
      (
        e ∷ pre,
        d,
        post,
        ap (λ l. e ∷ l) same,
        ((λ b k. if_usable-none (entry_addr e) b q (Carries-entry_addr e b k)), none_before),
        c,
        r,
      )
  | inr (b, q) ↦
      let p : some b ≡ some a = rw (q, first_usable) at h in
      let (o, u) = if_usable-some (entry_addr e) a (q ∙ p) in
      ([], e, entries, refl, tt, entry_addr-Carries e a o, usable-IsRoutable a u)
]

pub first_of-ok :
    (name : Text) (r : Result (List NetAddr)) (a : Addr)
    → first_of name r ≡ ok a
    → (entries : List NetAddr) × (r ≡ ok entries) × IsFirstRoutable a entries
first_of-ok name (err e) a h = cc h
first_of-ok name (ok entries) a h = elim (Option-cases (first_usable entries)) [
  | inl q ↦ absurd (ground (arith, q, h))
  | inr (b, q) ↦
      let p : b ≡ a = ground (arith, q, h) in
      (entries, refl, first_usable-some entries a (q ∙ ap (λ x. some x) p))
]
