-- ===== src/Ssrf.antt =====
-- worker/src/ssrf.ts: which targets the prober may call. `net.isIP`, the parser of URLs and the name lookup
-- are parameters.
pub mod Ranges
use systemvitals.Base.{
  ℕ, zero, suc, ◌+◌, ◌-◌, ◌*◌, ◌/◌, ◌%◌, ◌≡◌, Bool, true, false, ◌&&◌, ◌||◌, not, Option, none,
  some, List, [], ◌∷◌, ◌++◌, map, ◌==◌, leb, length, take, any, if◌then◌else◌,
}
use systemvitals.Base.Text.{
  Text, codes, text_eq, starts_with, split, drop, all_digits, number_from, is_digit,
}
use systemvitals.Base.Decimal.{decimal}
use systemvitals.Base.Result.{Result, ok, err, guard, ◌>>=◌, ◌>>◌}

-- What the source takes from node. `is_ip` is 4, 6 or 0; `hostname` is `none` for a malformed URL; `lookup`
-- is `none` where it fails; `lower` is `toLowerCase`.
pub record Net : Type 0 where
  pub is_ip : Text → ℕ
  pub hostname : Text → Option Text
  pub lookup : Text → Option (List Text)
  pub lower : Text → Text

-- `Number` of a part of an IPv4 address, which is of decimal digits.
unfoldable pub octet : Text → Option ℕ
octet s = if all_digits s then some (number_from 0 s) else none

abbrev pub is_octet : ℕ → Option ℕ → Bool
is_octet n none = false
is_octet n (some m) = m == n

abbrev pub is_between : ℕ → ℕ → Option ℕ → Bool
is_between low high none = false
is_between low high (some m) = leb low m && leb m high

abbrev pub blocked_octets : Option ℕ → Option ℕ → Bool
blocked_octets a b =
    is_octet 0 a
    || is_octet 127 a
    || is_octet 10 a
    || (is_octet 172 a && is_between 16 31 b)
    || (is_octet 192 a && is_octet 168 b)
    || (is_octet 169 a && is_octet 254 b)

abbrev pub blocked_parts : List Text → Bool
blocked_parts (a ∷ b ∷ c ∷ d ∷ []) = blocked_octets (octet a) (octet b)
blocked_parts _ = false

-- The branch of version 4.
unfoldable pub is_blocked_v4 : Text → Bool
unfolding octet
is_blocked_v4 ip = blocked_parts (split b'.' ip)

abbrev pub hex_digit : ℕ → Option ℕ
hex_digit c =
    if is_digit c
    then some (c - b'0')
    else if leb b'a' c && leb c b'f'
    then some (c - b'a' + 10)
    else if leb b'A' c && leb c b'F'
    then some (c - b'A' + 10)
    else none

-- `parseInt(s, 16)` up to the first other character; not a number counts as 0, as the bit operations take it.
unfoldable pub parse_hex : ℕ → Text → ℕ
parse_hex n [] = n
parse_hex n (c ∷ s) = elim (hex_digit c) [ none ↦ n | some d ↦ parse_hex (n * 16 + d) s ]

abbrev pub dotted : ℕ → ℕ → ℕ → ℕ → Text
dotted a b c d = decimal a ++ b'.' ∷ (decimal b ++ b'.' ∷ (decimal c ++ b'.' ∷ decimal d))

abbrev pub dotted_of : ℕ → ℕ → Text
dotted_of hi lo = dotted (hi / 256 % 256) (hi % 256) (lo / 256 % 256) (lo % 256)

module _ (net : Net) where
  -- The call of `isBlockedHost` on an address that is not of version 6.
  abbrev pub is_blocked_embedded : Text → Bool
  is_blocked_embedded ip = if net.is_ip ip == 4 then is_blocked_v4 ip else false

  -- Two hextets of an embedded IPv4 address; `none` where there are not two.
  abbrev pub hextets : List Text → Option Text
  hextets (hi ∷ lo ∷ []) = some (dotted_of (parse_hex 0 hi) (parse_hex 0 lo))
  hextets _ = none

  -- The address behind a prefix, if the branch for it returns.
  unfoldable pub embedded : Text → Option Bool
  unfolding parse_hex
  embedded rest =
      if net.is_ip rest == 4 then some (is_blocked_v4 rest) else elim (hextets (split b':' rest)) [
        | none ↦ none
        | some ip ↦ some (is_blocked_embedded ip)
      ]

  abbrev pub after_prefix : Text → Text → Option Bool
  after_prefix prefix ip =
      if starts_with (net.lower ip) prefix then embedded (drop (length prefix) ip) else none

  -- `/^fe[89ab]/i`
  abbrev pub is_link_local : Text → Bool
  is_link_local lower =
      starts_with lower (codes "fe8")
      || starts_with lower (codes "fe9")
      || starts_with lower (codes "fea")
      || starts_with lower (codes "feb")

  abbrev pub is_reserved_v6 : Text → Bool
  is_reserved_v6 lower =
      text_eq lower (codes "::1")
      || text_eq lower (codes "::")
      || starts_with lower (codes "fc")
      || starts_with lower (codes "fd")
      || is_link_local lower

  unfoldable pub is_blocked_v6 : Text → Bool
  unfolding embedded is_blocked_v4
  is_blocked_v6 ip = elim (after_prefix (codes "::ffff:") ip) [
    | some b ↦ b
    | none ↦ elim (after_prefix (codes "64:ff9b::") ip) [
      | some b ↦ b
      | none ↦ is_reserved_v6 (net.lower ip)
    ]
  ]

  unfoldable pub is_blocked_host : Text → Bool
  unfolding is_blocked_v4 is_blocked_v6
  is_blocked_host ip =
      if net.is_ip ip == 4
      then is_blocked_v4 ip
      else if net.is_ip ip == 6
      then is_blocked_v6 ip
      else false

-- `host.endsWith(']')`
abbrev pub ends_in_bracket : Text → Bool
ends_in_bracket [] = false
ends_in_bracket (c ∷ []) = c == b']'
ends_in_bracket (c ∷ d ∷ s) = ends_in_bracket (d ∷ s)

abbrev pub strip_brackets : Text → Text
strip_brackets host =
    if starts_with host (codes "[") && ends_in_bracket host
    then take (length host - 2) (drop 1 host)
    else host

pub data SsrfError : Type 0 where
  malformed_url blocked_target lookup_failed : SsrfError

unfoldable pub assert_addresses : Net → List Text → Result SsrfError (Unit {0})
unfolding is_blocked_host
assert_addresses net [] = ok tt
assert_addresses net (a ∷ more) =
    guard (not (is_blocked_host net a)) blocked_target >> assert_addresses net more

unfoldable pub assert_host : Net → Text → Result SsrfError (Unit {0})
unfolding is_blocked_host assert_addresses
assert_host net host =
    if not (net.is_ip host == 0)
    then guard (not (is_blocked_host net host)) blocked_target
    else elim (net.lookup host) [
      | none ↦ err lookup_failed
      | some addresses ↦ assert_addresses net addresses
    ]

unfoldable pub assert_target_allowed : Net → Text → Bool → Result SsrfError (Unit {0})
unfolding assert_host
assert_target_allowed net url true = ok tt
assert_target_allowed net url false = elim (net.hostname url) [
  | none ↦ err malformed_url
  | some host ↦ assert_host net (strip_brackets host)
]
