-- ===== src/RateLimit/Tests.antt =====
-- Requests of two addresses in one minute (ratelimit/ratelimit.go).
use Prim.Native.Nat.{◌≤◌, min}
use vpn_subscription_managem.Base.{◌≡◌, ◌-◌, refl, List, [], ◌∷◌, Text, text_eq, codes, keep_if}
use vpn_subscription_managem.RateLimit.{
  Request, key_of, limit_request, count_of, set_count, gc, is_expired, last_sep, text_lt,
}
use vpn_subscription_managem.RateLimit.Limit.{passed, asked, Steady, passed_lem}

abbrev from : Text → Request
from ip = record {
  scope = codes "login";
  ip = ip;
  slot = codes "202601011200";
  cutoff = codes "202601011159";
  limit = 2;
}

abbrev requests : List Request
requests =
    from (codes "10.0.0.1")
    ∷ from (codes "10.0.0.2")
    ∷ from (codes "10.0.0.1")
    ∷ from (codes "10.0.0.1")
    ∷ []

abbrev key : Text
key = codes "login|10.0.0.1|202601011200"

steady : Steady key 2 requests
unfolding is_expired last_sep text_lt key_of text_eq
steady = (refl, λ e. refl, (refl, λ e. refl, (refl, λ e. refl, (refl, λ e. refl, tt))))

-- The third request of the address does not pass.
two_pass : passed key requests [] ≡ 2
unfolding passed limit_request key_of count_of set_count gc keep_if is_expired last_sep text_lt
    text_eq
two_pass = refl

passed_lem_example :
    (passed key requests [] ≡ min (asked key requests) (2 - count_of key []))
    × (passed key requests [] ≤ 2)
passed_lem_example = passed_lem key 2 requests [] steady
