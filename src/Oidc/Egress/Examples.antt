-- ===== src/Oidc/Egress/Examples.antt =====
-- Networks as ranges
use rss_identity.Common.{
  ℕ, ◌*◌, ◌^◌, ◌≡◌, refl, Bool, false, ◌&&◌, some, List, [], ◌∷◌, leb, if◌then◌else◌, is_empty, All,
  ok, is_ok,
}
use rss_identity.Common.Text.{Text, text_eq}
use rss_identity.Oidc.Egress.{IpAddr, v4, v6, Networks, resolve}
use rss_identity.Oidc.Egress.Vetted.{
  Range, ranges_v4, ranges_v6, range_global, IsVetted, IsIpnet, resolve-IsVetted,
}

-- The range of a text, in a family
abbrev look_up : List Range → Text → ℕ × ℕ
look_up [] s = (1, 0)
look_up ((text, first, last) ∷ rest) s =
    let found = look_up rest s in if text_eq text s then (first, last) else found

abbrev holds_v4 : Text → ℕ → Bool
holds_v4 s x = let (first, last) = look_up ranges_v4 s in leb first x && leb x last

abbrev holds_v6 : Text → ℕ → Bool
holds_v6 s x = let (first, last) = look_up (range_global ∷ ranges_v6) s in leb first x && leb x last

abbrev holds_ip : Text → IpAddr → Bool
holds_ip s (v4 x) = holds_v4 s x
holds_ip s (v6 x) = holds_v6 s x

abbrev networks : Networks
networks = record { Net = Text; net = λ s. s; contains_ip = holds_ip }

networks-IsIpnet : IsIpnet networks
networks-IsIpnet = record {
  v4_covers = (
    (λ x. refl),
    (
      (λ x. refl),
      (
        (λ x. refl),
        (
          (λ x. refl),
          (
            (λ x. refl),
            (
              (λ x. refl),
              (
                (λ x. refl),
                (
                  (λ x. refl),
                  (
                    (λ x. refl),
                    ((λ x. refl), ((λ x. refl), ((λ x. refl), ((λ x. refl), ((λ x. refl), tt))))),
                  ),
                ),
              ),
            ),
          ),
        ),
      ),
    ),
  );
  v6_covers = ((λ x. refl), ((λ x. refl), ((λ x. refl), ((λ x. refl), tt))));
  global_covers = λ x. refl;
}

abbrev answer : List (IpAddr × ℕ)
answer = (v4 0x08080808, 0) ∷ (v6 (0x2606 * 2 ^ 112), 0) ∷ []

resolves : resolve networks false [] (some answer) ≡ ok answer
unfolding resolve
resolves = refl

-- The metadata service of a cloud
refuses : is_ok (resolve networks false [] (some ((v4 0xa9fea9fe, 0) ∷ []))) ≡ false
unfolding resolve
refuses = refl

resolve-IsVetted_example :
    (some answer ≡ some answer)
    × (is_empty answer ≡ false)
    × All (IsVetted networks false []) answer
resolve-IsVetted_example =
    resolve-IsVetted networks false [] (some answer) answer networks-IsIpnet resolves
