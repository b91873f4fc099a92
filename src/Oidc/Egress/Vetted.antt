-- ===== src/Oidc/Egress/Vetted.antt =====
-- No address of a special range is reached unless the deployment allowed it.
use rss_identity.Common.{
  ℕ, ◌+◌, ◌-◌, ◌*◌, ◌^◌, ◌≤◌, ◌<◌, ◌≡◌, refl, subst, ◌⊎◌, inl, inr, Bool, true, false, not, ◌&&◌,
  ◌||◌, Option, none, some, List, [], ◌∷◌, map, arith, leb, Bool-cases, any, is_empty, All, ok,
}
use rss_identity.Common.Text.{Text, codes}
use rss_identity.Oidc.Egress.{
  IpAddr, v4, v6, Networks, is_loopback, global_v6, in_any, is_public, allowed, resolve,
}

-- A network and its first and last address
abbrev pub Range : Type 0
Range = Text × ℕ × ℕ

abbrev pub ranges_v4 : List Range
ranges_v4 =
    (codes "0.0.0.0/8", 0, 0x00ffffff)
    ∷ (codes "10.0.0.0/8", 0x0a000000, 0x0affffff)
    ∷ (codes "100.64.0.0/10", 0x64400000, 0x647fffff)
    ∷ (codes "127.0.0.0/8", 0x7f000000, 0x7fffffff)
    ∷ (codes "169.254.0.0/16", 0xa9fe0000, 0xa9feffff)
    ∷ (codes "172.16.0.0/12", 0xac100000, 0xac1fffff)
    ∷ (codes "192.0.0.0/24", 0xc0000000, 0xc00000ff)
    ∷ (codes "192.0.2.0/24", 0xc0000200, 0xc00002ff)
    ∷ (codes "192.88.99.0/24", 0xc0586300, 0xc05863ff)
    ∷ (codes "192.168.0.0/16", 0xc0a80000, 0xc0a8ffff)
    ∷ (codes "198.18.0.0/15", 0xc6120000, 0xc613ffff)
    ∷ (codes "198.51.100.0/24", 0xc6336400, 0xc63364ff)
    ∷ (codes "203.0.113.0/24", 0xcb007100, 0xcb0071ff)
    ∷ (codes "224.0.0.0/3", 0xe0000000, 0xffffffff)
    ∷ []

abbrev pub range_global : Range
range_global = (global_v6, 2 ^ 125, 2 ^ 126 - 1)

abbrev pub ranges_v6 : List Range
ranges_v6 =
    (codes "2001::/23", 0x2001 * 2 ^ 112, 0x2001 * 2 ^ 112 + 2 ^ 105 - 1)
    ∷ (codes "2001:db8::/32", 0x20010db8 * 2 ^ 96, 0x20010db8 * 2 ^ 96 + 2 ^ 96 - 1)
    ∷ (codes "2002::/16", 0x2002 * 2 ^ 112, 0x2002 * 2 ^ 112 + 2 ^ 112 - 1)
    ∷ (codes "3fff::/20", 0x3fff * 2 ^ 112, 0x3fff * 2 ^ 112 + 2 ^ 108 - 1)
    ∷ []

abbrev text_of : Range → Text
text_of r = r.0

abbrev pub Outside : ℕ → Range → Type 0
Outside x (text, first, last) = (x < first) ⊎ (last < x)

abbrev pub Inside : ℕ → Range → Type 0
Inside x (text, first, last) = (first ≤ x) × (x ≤ last)

-- An address outside all special ranges, and in the global ones for version 6
abbrev pub IsPublic : IpAddr → Type 0
IsPublic (v4 x) = All (Outside x) ranges_v4
IsPublic (v6 x) = Inside x range_global × All (Outside x) ranges_v6

module _ (networks : Networks) where
  -- A network holds the addresses of its family from its first to its last.
  abbrev pub Covers : (ℕ → IpAddr) → Range → Type 0
  Covers family (text, first, last) =
      (x : ℕ) → networks.contains_ip (networks.net text) (family x) ≡ (leb first x && leb x last)

  -- What ipnet documents of the networks that the code names
  pub record IsIpnet : Type 0 where
    pub v4_covers : All (Covers v4) ranges_v4
    pub v6_covers : All (Covers v6) ranges_v6
    pub global_covers : Covers v6 range_global

  Outside-All :
      (family : ℕ → IpAddr) (ranges : List Range) (x : ℕ)
      → All (Covers family) ranges
      → in_any networks (map text_of ranges) (family x) ≡ false
      → All (Outside x) ranges
  Outside-All family [] x c h = tt
  Outside-All family ((text, first, last) ∷ ranges) x (c, cs) h =
      (ground (arith, c x, h), Outside-All family ranges x cs (ground (arith, h)))

  is_public-IsPublic : (ip : IpAddr) → IsIpnet → is_public networks ip ≡ true → IsPublic ip
  unfolding is_public
  is_public-IsPublic (v4 x) k h = Outside-All v4 ranges_v4 x k.v4_covers (ground (arith, h))
  is_public-IsPublic (v6 x) k h =
      elim (Bool-cases (networks.contains_ip (networks.net global_v6) (v6 x))) [
        | inr g ↦ absurd (ground (arith, h, g))
        | inl g ↦ (
          ground (arith, g, k.global_covers x),
          Outside-All v6 ranges_v6 x k.v6_covers (ground (arith, h, g)),
        )
      ]

  -- Why an address may be reached
  pub data IsVetted (loopback : Bool) (cidrs : List networks.Net) (a : IpAddr × ℕ) : Type 0 where
    is_local : loopback ≡ true → is_loopback a.0 ≡ true → IsVetted loopback cidrs a
    configured : any (λ n. networks.contains_ip n a.0) cidrs ≡ true → IsVetted loopback cidrs a
    public_address : IsPublic a.0 → IsVetted loopback cidrs a

  allowed-IsVetted :
      (loopback : Bool) (cidrs : List networks.Net) (a : IpAddr × ℕ)
      → IsIpnet
      → allowed networks a.0 loopback cidrs ≡ true
      → IsVetted loopback cidrs a
  unfolding allowed
  allowed-IsVetted loopback cidrs a k h = elim (Bool-cases (loopback && is_loopback a.0)) [
    | inl l ↦ is_local (ground (arith, l)) (ground (arith, l))
    | inr l ↦ elim (Bool-cases (any (λ n. networks.contains_ip n a.0) cidrs)) [
      | inl c ↦ configured c
      | inr c ↦ public_address (is_public-IsPublic a.0 k (ground (arith, h, l, c)))
    ]
  ]

  All-IsVetted :
      (loopback : Bool) (cidrs : List networks.Net) (as' : List (IpAddr × ℕ))
      → IsIpnet
      → any (λ a. not (allowed networks a.0 loopback cidrs)) as' ≡ false
      → All (IsVetted loopback cidrs) as'
  All-IsVetted loopback cidrs [] k h = tt
  All-IsVetted loopback cidrs (a ∷ as') k h = (
    allowed-IsVetted loopback cidrs a k (ground (arith, h)),
    All-IsVetted loopback cidrs as' k (ground (arith, h)),
  )

  -- The addresses that a name resolves to are all that the lookup answered, at least one, and each is
  -- the loopback if that is allowed, or in a network that the deployment configured, or outside every
  -- special range: no answer of the DNS leads into a private network. The networks that the code names
  -- hold the addresses that ipnet documents.
  pub resolve-IsVetted :
      (loopback : Bool) (cidrs : List networks.Net) (answer : Option (List (IpAddr × ℕ)))
      (as' : List (IpAddr × ℕ))
      → IsIpnet
      → resolve networks loopback cidrs answer ≡ ok as'
      → (answer ≡ some as') × (is_empty as' ≡ false) × All (IsVetted loopback cidrs) as'
  unfolding resolve
  resolve-IsVetted loopback cidrs none as' k h = absurd (ground (arith, h))
  resolve-IsVetted loopback cidrs (some bs) as' k h =
      elim (Bool-cases (is_empty bs || any (λ a. not (allowed networks a.0 loopback cidrs)) bs)) [
        | inl refused ↦ absurd (ground (arith, h, refused))
        | inr fits ↦
            let same : bs ≡ as' = ground (arith, h, fits) in
            subst
              (λ cs. (some bs ≡ some cs) × (is_empty cs ≡ false) × All (IsVetted loopback cidrs) cs)
              same
              (refl, ground (arith, fits), All-IsVetted loopback cidrs bs k (ground (arith, fits)))
      ]
