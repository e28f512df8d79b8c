-- ===== src/Security/Targets/Addresses.antt =====
-- security/src/target-policy.ts: the addresses that are blocked, and the names of hosts.
use mathlib.Core.List.{reverse}
use surfgate.Common.{
  ℕ, ◌+◌, Bool, true, ◌&&◌, List, [], ◌∷◌, ◌++◌, map, Option, none, some, nat_eq, any,
  if◌then◌else◌, is_some,
}
use surfgate.Contracts.Text.{Text, codes, is_upper, strip_prefix}

pub data Family : Type 0 where
  ipv4 ipv6 : Family

-- A subnet as `BlockList.addSubnet` takes it.
pub record Subnet : Type 0 where
  pub network : Text
  pub prefix : ℕ
  pub family : Family

-- A URL as the WHATWG parser answers it.
pub record Url : Type 0 where
  pub protocol : Text
  pub username : Text
  pub password : Text
  pub hostname : Text
  pub rest : Text

-- What the code calls: the parser of URLs, `href`, the
-- assignment to `hostname`, `isIP` with 4 and 6 as families, and the test of
-- one subnet of a block list.
pub record Platform : Type 0 where
  pub parse_url : Text → Option Url
  pub href : Url → Text
  pub set_hostname : Url → Text → Url
  pub is_ip : Text → Option Family
  pub in_subnet : Subnet → Family → Text → Bool

abbrev pub blocked_ipv4_subnets : List (Text × ℕ)
blocked_ipv4_subnets =
    (codes "0.0.0.0", 8)
    ∷ (codes "10.0.0.0", 8)
    ∷ (codes "100.64.0.0", 10)
    ∷ (codes "127.0.0.0", 8)
    ∷ (codes "169.254.0.0", 16)
    ∷ (codes "172.16.0.0", 12)
    ∷ (codes "192.0.0.0", 24)
    ∷ (codes "192.0.2.0", 24)
    ∷ (codes "192.31.196.0", 24)
    ∷ (codes "192.52.193.0", 24)
    ∷ (codes "192.88.99.0", 24)
    ∷ (codes "192.168.0.0", 16)
    ∷ (codes "192.175.48.0", 24)
    ∷ (codes "198.18.0.0", 15)
    ∷ (codes "198.51.100.0", 24)
    ∷ (codes "203.0.113.0", 24)
    ∷ (codes "224.0.0.0", 4)
    ∷ (codes "240.0.0.0", 4)
    ∷ []

abbrev pub blocked_ipv6_subnets : List (Text × ℕ)
blocked_ipv6_subnets =
    (codes "::", 128)
    ∷ (codes "::1", 128)
    ∷ (codes "64:ff9b::", 96)
    ∷ (codes "64:ff9b:1::", 48)
    ∷ (codes "100::", 64)
    ∷ (codes "2001::", 32)
    ∷ (codes "2001:2::", 48)
    ∷ (codes "2001:10::", 28)
    ∷ (codes "2001:20::", 28)
    ∷ (codes "fc00::", 7)
    ∷ (codes "fec0::", 10)
    ∷ (codes "fe80::", 10)
    ∷ (codes "ff00::", 8)
    ∷ (codes "2001:db8::", 32)
    ∷ (codes "2002::", 16)
    ∷ (codes "3fff::", 20)
    ∷ (codes "5f00::", 16)
    ∷ []

-- The loops that fill the block list.
abbrev add_ipv4 : List (Text × ℕ) → List Subnet → List Subnet
add_ipv4 [] later = later
add_ipv4 ((network, prefix) ∷ rows) later =
    record { network = network; prefix = prefix; family = ipv4 }
    ∷ record { network = codes "::ffff:" ++ network; prefix = 96 + prefix; family = ipv6 }
    ∷ add_ipv4 rows later

abbrev add_ipv6 : List (Text × ℕ) → List Subnet
add_ipv6 [] = []
add_ipv6 ((network, prefix) ∷ rows) =
    record { network = network; prefix = prefix; family = ipv6 } ∷ add_ipv6 rows

unfoldable pub blocked : List Subnet
blocked = add_ipv4 blocked_ipv4_subnets (add_ipv6 blocked_ipv6_subnets)

-- `blocked.check` asks every subnet of the list.
abbrev pub forbidden_family : Platform → Text → Option Family → Bool
forbidden_family p address none = true
forbidden_family p address (some family) = any (λ s. p.in_subnet s family address) blocked

unfoldable pub forbidden_address : Platform → Text → Bool
forbidden_address p address = forbidden_family p address (p.is_ip address)

-- `toLowerCase` on the ASCII texts that host names and addresses are.
abbrev pub lower_unit : ℕ → ℕ
lower_unit c = if is_upper c then c + 32 else c

unfoldable pub to_lower_case : Text → Text
to_lower_case t = map lower_unit t

-- `replace(/\.+$/u, '')`, from the end of the text.
unfoldable pub drop_dots : Text → Text
drop_dots [] = []
drop_dots (c ∷ t) = let rest = drop_dots t in if nat_eq c b'.' then rest else c ∷ t

unfoldable pub ends_with : Text → Text → Bool
unfolding strip_prefix
ends_with suffix t = is_some (strip_prefix (reverse suffix) (reverse t))

-- `slice(1, -1)` of a text in brackets.
abbrev inner : Text → Text
inner [] = []
inner (c ∷ t) = reverse (tail (reverse t))
  where
    tail : Text → Text
    tail [] = []
    tail (d ∷ u) = u

unfoldable pub unbracketed : Text → Text
unfolding strip_prefix ends_with
unbracketed t =
    if is_some (strip_prefix (codes "[") t) && ends_with (codes "]") t then inner t else t

unfoldable pub normalized_hostname : Text → Text
unfolding unbracketed drop_dots to_lower_case
normalized_hostname t = to_lower_case (reverse (drop_dots (reverse (unbracketed t))))
