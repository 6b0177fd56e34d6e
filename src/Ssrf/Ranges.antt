-- ===== src/Ssrf/Ranges.antt =====
-- The addresses that are blocked, as ranges of 32-bit numbers.
use systemvitals.Base.{
  ℕ, ◌+◌, ◌*◌, ◌/◌, ◌^◌, ◌<◌, ◌≡◌, ◌≢◌, refl, ap, ◌∙◌, inl, inr, ◌⊎◌, Bool, true, false, ◌&&◌, ◌||◌,
  not, some, List, [], ◌∷◌, arith, ◌==◌, leb, any, All, Bool-cases, Option-cases,
}
use systemvitals.Base.Text.{Text, split, is_digit}
use systemvitals.Base.Decimal.{decimal, number_from-decimal, all_digits-decimal}
use systemvitals.Base.Split.{split-append, split-lacks, all_digits-any}
use systemvitals.Base.Result.{ok, guard}
use systemvitals.Ssrf.{
  Net, octet, blocked_octets, is_blocked_v4, dotted, is_blocked_host, strip_brackets, SsrfError,
  blocked_target, assert_addresses, assert_host, assert_target_allowed,
}

-- An address as a number, and a network with the bits that it leaves open.
abbrev pub address : ℕ → ℕ → ℕ → ℕ → ℕ
address a b c d = a * 2 ^ 24 + b * 2 ^ 16 + c * 2 ^ 8 + d

abbrev pub in_network : ℕ → ℕ → ℕ → Bool
in_network free network ip = ip / 2 ^ free == network / 2 ^ free

-- 0.0.0.0/8, 127.0.0.0/8, 10.0.0.0/8, 172.16.0.0/12, 192.168.0.0/16 and 169.254.0.0/16
unfoldable pub is_reserved : ℕ → Bool
is_reserved ip =
    in_network 24 (address 0 0 0 0) ip
    || in_network 24 (address 127 0 0 0) ip
    || in_network 24 (address 10 0 0 0) ip
    || in_network 20 (address 172 16 0 0) ip
    || in_network 16 (address 192 168 0 0) ip
    || in_network 16 (address 169 254 0 0) ip

digit_no_dot : (c : ℕ) → is_digit c ≡ true → (c == b'.') ≡ false
digit_no_dot c h = ground arith

decimal_no_dot : (n : ℕ) → any (λ c. c == b'.') (decimal n) ≡ false
decimal_no_dot n = all_digits-any _ digit_no_dot (decimal n) (all_digits-decimal n)

split-dotted :
    (a b c d : ℕ) → split b'.' (dotted a b c d) ≡ decimal a ∷ decimal b ∷ decimal c ∷ decimal d ∷ []
split-dotted a b c d =
    split-append b'.' (decimal a) _ (decimal_no_dot a)
    ∙ ap (λ r. decimal a ∷ r)
        (split-append b'.' (decimal b) _ (decimal_no_dot b)
          ∙ ap (λ r. decimal b ∷ r)
              (split-append b'.' (decimal c) (decimal d) (decimal_no_dot c)
                ∙ ap (λ r. decimal c ∷ r) (split-lacks b'.' (decimal d) (decimal_no_dot d))))

octet-decimal : (n : ℕ) → octet (decimal n) ≡ some n
unfolding octet
octet-decimal n = rw (all_digits-decimal n, number_from-decimal n) refl

module _ (a b c d : ℕ) (hb : b < 256) (hc : c < 256) (hd : d < 256) where
  quotient_24 : address a b c d / 2 ^ 24 ≡ a
  quotient_24 = omega arith

  quotient_20 : address a b c d / 2 ^ 20 ≡ a * 16 + b / 16
  quotient_20 = omega arith

  quotient_16 : address a b c d / 2 ^ 16 ≡ a * 256 + b
  quotient_16 = omega arith

  private_172 : (a * 16 + b / 16 == 2753) ≡ (a == 172 && (leb 16 b && leb b 31))
  private_172 = ground arith

  private_192 : (a * 256 + b == 49320) ≡ (a == 192 && b == 168)
  private_192 = ground arith

  link_local_169 : (a * 256 + b == 43518) ≡ (a == 169 && b == 254)
  link_local_169 = ground arith

  octets-is_reserved : blocked_octets (some a) (some b) ≡ is_reserved (address a b c d)
  unfolding is_reserved
  octets-is_reserved =
      rw (quotient_24, quotient_20, quotient_16, private_172, private_192, link_local_169) refl

-- An IPv4 address is blocked exactly if it lies in one of six networks: this one, loopback, the three
-- private ones and link-local. Assumed: `net.isIP` tells that the four numbers between dots are one.
pub is_blocked_host_exact :
    (net : Net) (a b c d : ℕ)
    → b < 256
    → c < 256
    → d < 256
    → net.is_ip (dotted a b c d) ≡ 4
    → is_blocked_host net (dotted a b c d) ≡ is_reserved (address a b c d)
unfolding is_blocked_host is_blocked_v4
is_blocked_host_exact net a b c d hb hc hd version =
    rw (version, split-dotted a b c d, octet-decimal a, octet-decimal b)
      (octets-is_reserved a b c d hb hc hd)

-- A host that may be called: an address that is not blocked, or a name with such addresses only.
abbrev pub IsOpen : Net → Text → Type 0
IsOpen net host =
    ((net.is_ip host ≢ 0) × (is_blocked_host net host ≡ false))
    ⊎ ((addresses : List Text) × (net.lookup host ≡ some addresses)
        × All (λ a. is_blocked_host net a ≡ false) addresses)

assert_addresses-All :
    (net : Net) (addresses : List Text) (u : Unit {0})
    → assert_addresses net addresses ≡ ok u
    → All (λ a. is_blocked_host net a ≡ false) addresses
unfolding assert_addresses
assert_addresses-All net [] u h = tt
assert_addresses-All net (a ∷ more) u h = elim (Bool-cases (is_blocked_host net a)) [
  | inl e ↦ absurd (ground arith)
  | inr e ↦ (e, assert_addresses-All net more u (rw (e, assert_addresses) at h))
]

guard-not : (b : Bool) (e : SsrfError) (u : Unit {0}) → guard (not b) e ≡ ok u → b ≡ false
guard-not true e u h = absurd (ground arith)
guard-not false e u h = refl

positive : (n : ℕ) → (n == 0) ≡ false → n ≢ 0
positive n e z = ground arith

assert_host-IsOpen :
    (net : Net) (host : Text) (u : Unit {0}) → assert_host net host ≡ ok u → IsOpen net host
unfolding assert_host
assert_host-IsOpen net host u h = elim (Bool-cases (net.is_ip host == 0)) [
  | inl e ↦ elim (Option-cases (net.lookup host)) [
    | inl f ↦ absurd (ground arith)
    | inr (addresses, f) ↦
        inr (addresses, f, assert_addresses-All net addresses u (rw (e, f, assert_host) at h))
  ]
  | inr e ↦ inl (
    positive (net.is_ip host) e,
    guard-not (is_blocked_host net host) blocked_target u (rw (e, assert_host) at h),
  )
]

-- Where private targets are not allowed, a target that is let through has a host, and that is an
-- address that is not blocked or a name all of whose addresses are not blocked.
pub assert_target_allowed-IsOpen :
    (net : Net) (url : Text)
    → assert_target_allowed net url false ≡ ok tt
    → (host : Text) × (net.hostname url ≡ some host) × IsOpen net (strip_brackets host)
unfolding assert_target_allowed
assert_target_allowed-IsOpen net url h = elim (Option-cases (net.hostname url)) [
  | inl e ↦ absurd (ground arith)
  | inr (host, e) ↦ (
    host,
    e,
    assert_host-IsOpen net (strip_brackets host) tt (rw (e, assert_target_allowed) at h),
  )
]
