-- ===== src/Storage/Current.antt =====
-- What a candidate that still stands has been checked against, and what makes it stale for good.
use rss_identity.Common.{
  ℕ, ◌<◌, ◌≡◌, sym, subst, ◌↔◌, inl, inr, true, false, some, arith, Option-cases, ok, is_ok,
  Result-cases,
}
use rss_identity.Account.Policy.{AccountState, matches_verification}
use rss_identity.Account.Policy.Fencing.{History, matches_verification-History}
use rss_identity.Storage.{Store, Stored, AuthenticationCandidate, load, current, authority_id}

-- A candidate stands exactly if its deadline has not come, the deployment is the one that it was made
-- for, and what is stored of its account matches what was verified; the stored state is then returned.
current_iff :
    (store : Store) (now : ℕ) (c : AuthenticationCandidate) (s : AccountState)
    → (current store now c ≡ ok s) ↔ (
        (now < c.expires)
        × (store.deployment ≡ some c.authority)
        × ((stored : Stored) × (load store c.state.key ≡ ok stored) × (stored.state ≡ s))
        × (matches_verification s c.state ≡ true))
unfolding current authority_id
current_iff store now c s = (there, back)
  where
    there :
        current store now c ≡ ok s
        → (now < c.expires)
          × (store.deployment ≡ some c.authority)
          × ((stored : Stored) × (load store c.state.key ≡ ok stored) × (stored.state ≡ s))
          × (matches_verification s c.state ≡ true)
    there h = elim (Option-cases store.deployment) [
      | inl e ↦ absurd (ground (arith, h, e))
      | inr (d, e) ↦ elim (Result-cases (load store c.state.key)) [
        | inr (x, l) ↦ absurd (ground (arith, h, e, l))
        | inl (stored, l) ↦
            let same : stored.state ≡ s = ground (arith, h, e, l) in
            let fits : d ≡ c.authority = ground (arith, h) in
            (
              ground (arith, h),
              ground (arith, e, fits),
              (stored, l, same),
              subst (λ t. matches_verification t c.state ≡ true) same (ground (arith, h, e, l)),
            )
      ]
    ]

    back :
        (now < c.expires)
          × (store.deployment ≡ some c.authority)
          × ((stored : Stored) × (load store c.state.key ≡ ok stored) × (stored.state ≡ s))
          × (matches_verification s c.state ≡ true)
        → current store now c ≡ ok s
    back (lt, e, (stored, l, same), m) =
        let m' : matches_verification stored.state c.state ≡ true =
          subst (λ t. matches_verification t c.state ≡ true) (sym same) m in
        ground (arith, lt, e, l, m', same)

-- Once any operation on its account has succeeded since it was captured, a candidate is refused by
-- every later check, whatever else is stored.
pub current-History :
    (store : Store) (now : ℕ) (c : AuthenticationCandidate) (stored : Stored)
    → load store c.state.key ≡ ok stored
    → History c.state stored.state
    → is_ok (current store now c) ≡ false
unfolding current
current-History store now c stored l h = elim (Result-cases (authority_id store)) [
  | inr (x, e) ↦ ground (arith, e)
  | inl (d, e) ↦ ground (arith, e, l, matches_verification-History h)
]
