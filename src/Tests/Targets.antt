-- ===== src/Tests/Targets.antt =====
-- Targets of the prober on a small network.
use systemvitals.Base.{any, ◌==◌, ◌≡◌, refl, true, some, [], ◌∷◌, arith, if◌then◌else◌}
use systemvitals.Base.Text.{Text, codes, text_eq, number_from}
use systemvitals.Base.Decimal.{decimal}
use systemvitals.Ssrf.{
  Net, is_blocked_host, is_blocked_v4, octet, dotted, assert_target_allowed, strip_brackets,
}
use systemvitals.Ssrf.Ranges.{
  is_reserved, address, IsOpen, is_blocked_host_exact, assert_target_allowed-IsOpen,
}

abbrev net : Net
net = record {
  is_ip = λ s. if text_eq s (codes "web") then 0 else if any (λ c. c == b':') s then 6 else 4;
  hostname = λ url. some url;
  lookup = λ host. some (codes "8.8.8.8" ∷ []);
  lower = λ s. s;
}

is_blocked_host_exact_example :
    is_blocked_host net (dotted 172 20 0 1) ≡ is_reserved (address 172 20 0 1)
unfolding decimal
is_blocked_host_exact_example =
    is_blocked_host_exact net 172 20 0 1 (omega arith) (omega arith) (omega arith) refl

assert_target_allowed-IsOpen_example :
    (host : Text) × (net.hostname (codes "web") ≡ some host) × IsOpen net (strip_brackets host)
unfolding assert_target_allowed is_blocked_host octet number_from
assert_target_allowed-IsOpen_example = assert_target_allowed-IsOpen net (codes "web") refl

mapped_loopback : is_blocked_host net (codes "::ffff:7f00:1") ≡ true
unfolding is_blocked_host is_blocked_v4 octet number_from decimal
mapped_loopback = refl
