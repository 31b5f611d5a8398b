-- ===== src/Slug/Tests.antt =====
-- Identifiers generated with codes that are in use (slug/slug.go).
use vpn_subscription_managem.Base.{
  ℕ, ◌≡◌, ◌↔◌, refl, Bool, true, Option, none, some, Text, text_eq, codes, ok, err,
}
use vpn_subscription_managem.Slug.{
  collisions, random_failed, generate, generate_from, random_code, first_bytes, answered,
}
use vpn_subscription_managem.Slug.Generate.{IsFree, AllUsed, generate-IsFree, generate_collisions}

-- every attempt draws its own number
abbrev draw : ℕ → Option (ℕ → ℕ)
draw attempt = some (λ i. attempt)

abbrev taken : Text → Option Bool
taken value = some (text_eq value (codes "sub-aaaaaaaa"))

second : generate (codes "sub-") draw taken ≡ ok (codes "sub-bbbbbbbb")
unfolding generate generate_from random_code first_bytes answered text_eq
second = refl

generate-IsFree_example : IsFree (codes "sub-") draw taken (codes "sub-bbbbbbbb")
generate-IsFree_example =
    generate-IsFree (codes "sub-") draw taken {value = codes "sub-bbbbbbbb"} second

all_taken : generate (codes "sub-") draw (λ v. some true) ≡ err collisions
unfolding generate generate_from random_code first_bytes answered
all_taken = refl

no_bytes : generate (codes "sub-") (λ n. none) taken ≡ err random_failed
unfolding generate generate_from random_code
no_bytes = refl

generate_collisions_example :
    (generate (codes "sub-") draw (λ v. some true) ≡ err collisions)
    ↔ AllUsed (codes "sub-") draw (λ v. some true) 3
generate_collisions_example = generate_collisions (codes "sub-") draw (λ v. some true)
