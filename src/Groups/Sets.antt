-- ===== src/Groups/Sets.antt =====
-- Group values as a set.
use rss_identity.Common.{
  Bool-cases, inl, inr, ◌≡◌, sym, ap, ◌∙◌, true, not, ◌&&◌, List, arith, leb, any, is_empty, ok,
}
use rss_identity.Common.Text.{Text, len, is_control, contains_text}
use rss_identity.Common.Text.Sort.{
  sort, dedup, strictly_sorted-dedup-sort, contains_text-dedup-sort, strictly_sorted-ext,
  length-dedup-sort, all-dedup-sort,
}
use rss_identity.Groups.{
  UpstreamGroups, present, bounded_values, canonical_values, make_present, validate,
}

bounded-dedup-sort :
    (vs : List Text) → bounded_values vs ≡ true → bounded_values (dedup (sort vs)) ≡ true
unfolding bounded_values
bounded-dedup-sort vs h = ground (
  arith,
  length-dedup-sort vs,
  all-dedup-sort (λ v. not (is_empty v) && leb (len v) 256 && not (any is_control v)) vs,
)

-- Bounded group values are accepted, as a canonical list with the same members, which passes the
-- later validation.
make_present-canonical :
    (vs : List Text)
    → bounded_values vs ≡ true
    → (ws : List Text) × (make_present vs ≡ ok (present ws))
      × (canonical_values ws ≡ true)
      × (validate (present ws) ≡ ok tt)
      × ((s : Text) → contains_text ws s ≡ contains_text vs s)
unfolding make_present validate canonical_values
make_present-canonical vs h = (
  dedup (sort vs),
  rw h,
  ground (arith, bounded-dedup-sort vs h, strictly_sorted-dedup-sort vs),
  ground (arith, bounded-dedup-sort vs h, strictly_sorted-dedup-sort vs),
  (λ s. contains_text-dedup-sort s vs),
)

pub present-canonical :
    (vs ws : List Text) → make_present vs ≡ ok (present ws) → canonical_values ws ≡ true
unfolding make_present canonical_values
present-canonical vs ws h = ground (arith, bounded-dedup-sort vs, strictly_sorted-dedup-sort vs)

-- Neither the order nor the repetition of the claimed values matters: bounded lists with the same
-- members give the same observation.
pub make_present-ext :
    (vs ws : List Text)
    → bounded_values vs ≡ true
    → bounded_values ws ≡ true
    → ((s : Text) → contains_text vs s ≡ contains_text ws s)
    → make_present vs ≡ make_present ws
unfolding make_present
make_present-ext vs ws h k same =
    rw (h, k)
      (ap (λ (l : List Text). ok (present l))
        (strictly_sorted-ext _ _ (strictly_sorted-dedup-sort vs) (strictly_sorted-dedup-sort ws)
          (λ s. contains_text-dedup-sort s vs ∙ same s ∙ sym (contains_text-dedup-sort s ws))))

pub validate-make_present :
    (vs : List Text) (g : UpstreamGroups) → make_present vs ≡ ok g → validate g ≡ ok tt
unfolding make_present
validate-make_present vs g e = elim (Bool-cases (bounded_values vs)) [
  | inl h ↦
      let (ws, made, canonical, valid, same) = make_present-canonical vs h in
      ground (arith, e, made, valid)
  | inr h ↦ absurd (ground (arith, e, h))
]
