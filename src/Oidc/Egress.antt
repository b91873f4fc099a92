-- ===== src/Oidc/Egress.antt =====
-- crates/identity-oidc/src/egress.rs: which addresses a provider may be reached at.
pub mod Vetted
mod Examples
use rss_identity.Common.{
  ℕ, ◌/◌, ◌^◌, Bool, true, false, not, ◌&&◌, ◌||◌, Option, none, some, List, [], ◌∷◌, map, ◌==◌,
  if◌then◌else◌, any, is_empty, Result, ok, err,
}
use rss_identity.Common.Text.{Text, codes}

-- `IpAddr`, as the number that its bytes are
pub data IpAddr : Type 0 where
  v4 v6 : ℕ → IpAddr

-- `IpNet` of the ipnet crate: a network by its text, which the code parses and unwraps, and whether it
-- holds an address.
pub record Networks : Type 1 where
  pub Net : Type 0
  pub net : Text → Net
  pub contains_ip : Net → IpAddr → Bool

pub data EgressDenied : Type 0 where
  egress_denied lookup_failed : EgressDenied

-- `IpAddr::is_loopback`
abbrev pub is_loopback : IpAddr → Bool
is_loopback (v4 x) = x / 2 ^ 24 == 127
is_loopback (v6 x) = x == 1

abbrev pub blocked_v4 : List Text
blocked_v4 = map codes (
    "0.0.0.0/8" ∷ "10.0.0.0/8" ∷ "100.64.0.0/10" ∷ "127.0.0.0/8" ∷ "169.254.0.0/16"
    ∷ "172.16.0.0/12" ∷ "192.0.0.0/24" ∷ "192.0.2.0/24" ∷ "192.88.99.0/24" ∷ "192.168.0.0/16"
    ∷ "198.18.0.0/15" ∷ "198.51.100.0/24" ∷ "203.0.113.0/24" ∷ "224.0.0.0/3" ∷ [])

abbrev pub global_v6 : Text
global_v6 = codes "2000::/3"

abbrev pub blocked_v6 : List Text
blocked_v6 = map codes ("2001::/23" ∷ "2001:db8::/32" ∷ "2002::/16" ∷ "3fff::/20" ∷ [])

module _ (networks : Networks) where
  abbrev pub in_any : List Text → IpAddr → Bool
  in_any texts ip = any (λ t. networks.contains_ip (networks.net t) ip) texts

  unfoldable pub is_public : IpAddr → Bool
  is_public (v4 x) = not (in_any blocked_v4 (v4 x))
  is_public (v6 x) =
      if not (networks.contains_ip (networks.net global_v6) (v6 x))
      then false
      else not (in_any blocked_v6 (v6 x))

  unfoldable pub allowed : IpAddr → Bool → List networks.Net → Bool
  unfolding is_public
  allowed ip loopback cidrs =
      if loopback && is_loopback ip
      then true
      else if any (λ n. networks.contains_ip n ip) cidrs
      then true
      else is_public ip

  -- `VettedResolver::resolve` on what the lookup answered: addresses with ports, or none for an error
  unfoldable pub resolve :
      Bool
      → List networks.Net
      → Option (List (IpAddr × ℕ))
      → Result (List (IpAddr × ℕ)) EgressDenied
  unfolding allowed
  resolve loopback cidrs none = err lookup_failed
  resolve loopback cidrs (some addresses) =
      if is_empty addresses || any (λ a. not (allowed a.0 loopback cidrs)) addresses
      then err egress_denied
      else ok addresses
