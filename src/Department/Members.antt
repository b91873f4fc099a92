-- ===== src/Department/Members.antt =====
-- The loop over the memberships of a snapshot.
use rss_identity.Common.{
  ◌≡◌, refl, sym, subst, inl, inr, true, false, List, [], ◌∷◌, arith, Bool-cases, All,
}
use rss_identity.Common.Text.{Text, text_eq, contains_text, text_eq_iff, text_eq_refl}
use rss_identity.Department.{DepartmentNode, Parents, members_ok}
use rss_identity.Department.Map.{is_none-lookup, entries, ids, Distinct}

pub members_ok-All :
    (nodes : List DepartmentNode) (seen ms : List Text)
    → members_ok (entries nodes) seen ms ≡ true
    → All (λ m. contains_text (ids nodes) m ≡ true) ms
unfolding members_ok
members_ok-All nodes seen [] h = tt
members_ok-All nodes seen (m ∷ ms) h =
    (ground (arith, is_none-lookup m nodes), members_ok-All nodes (m ∷ seen) ms (ground arith))

members_ok-unseen :
    (ps : Parents) (seen ms : List Text) (s : Text)
    → members_ok ps seen ms ≡ true
    → contains_text seen s ≡ true
    → contains_text ms s ≡ false
unfolding members_ok
members_ok-unseen ps seen [] s h k = refl
members_ok-unseen ps seen (m ∷ ms) s h k = elim (Bool-cases (text_eq m s)) [
  | inl e ↦ absurd (
      ground (
        arith,
        h,
        subst (λ (t : Text). contains_text seen t ≡ true) (sym ((text_eq_iff m s).0 e)) k,
      ))
  | inr e ↦ rw e (members_ok-unseen ps (m ∷ seen) ms s (ground arith) (rw e k))
]

pub members_ok-Distinct :
    (ps : Parents) (seen ms : List Text) → members_ok ps seen ms ≡ true → Distinct ms
unfolding members_ok
members_ok-Distinct ps seen [] h = tt
members_ok-Distinct ps seen (m ∷ ms) h =
    let rest : members_ok ps (m ∷ seen) ms ≡ true = ground arith in
    (
      members_ok-unseen ps (m ∷ seen) ms m rest (rw (text_eq_refl m)),
      members_ok-Distinct ps (m ∷ seen) ms rest,
    )

pub All-members_ok :
    (nodes : List DepartmentNode) (seen ms : List Text)
    → All (λ m. contains_text (ids nodes) m ≡ true) ms
    → Distinct ms
    → ((s : Text) → contains_text ms s ≡ true → contains_text seen s ≡ false)
    → members_ok (entries nodes) seen ms ≡ true
unfolding members_ok
All-members_ok nodes seen [] k d h = refl
All-members_ok nodes seen (m ∷ ms) (k, ks) (d, ds) h = ground (
  arith,
  is_none-lookup m nodes,
  h m (rw (text_eq_refl m)),
  All-members_ok nodes (m ∷ seen) ms ks ds later,
)
  where
    later : (s : Text) → contains_text ms s ≡ true → contains_text (m ∷ seen) s ≡ false
    later s c = elim (Bool-cases (text_eq m s)) [
      | inl e ↦ absurd (
          ground
            (arith, c, subst (λ (t : Text). contains_text ms t ≡ false) ((text_eq_iff m s).0 e) d))
      | inr e ↦ rw e (h s (rw (e, c)))
    ]
