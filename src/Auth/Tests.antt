-- ===== src/Auth/Tests.antt =====
-- The theorems on callers at concrete inputs.
use yolo_ave_mujica.Base.{
  ◌≡◌, refl, ◌↔◌, ◌⊎◌, ◌&&◌, ◌+◌, ◌-◌, ◌≤◌, ◌<◌, ℤ, pos, not_positive, true, lit, Text, text_key,
  text_beq, lookup, is_empty, trim_space, is_space, [], ◌∷◌, Option, none, some, arith,
}
use yolo_ave_mujica.Auth.RateLimit.{FixedWindowBucket, Buckets}
use yolo_ave_mujica.Auth.RateLimit.Window.{Requests, requests, passed, limiter_of, passed_lem}
use yolo_ave_mujica.Auth.Scope.{
  member, scope, identity_of, no_ids, require_project_access, normalize_project_ids,
  parse_project_ids_header,
}
use yolo_ave_mujica.Auth.Scope.Access.{require_project_access_iff}

-- Two clients; the third request of the first client is one too many.
abbrev alice : Text
alice = 1 ∷ []

abbrev bob : Text
bob = 2 ∷ []

abbrev traffic : Requests
traffic = (21, bob) ∷ (22, alice) ∷ (23, alice) ∷ (50, bob) ∷ []

abbrev old_buckets : Buckets
old_buckets = (alice, record { window_start = 1; count = 2 }) ∷ []

in_window : bob ≡ alice → 50 < 20 + 10
in_window e = cc

opened_before :
    (x : FixedWindowBucket) → lookup alice old_buckets ≡ some x → x.window_start + 10 ≤ 20
unfolding lookup text_beq
opened_before x h = ground arith

passed_lem_example : passed (limiter_of 2 10) alice ((20, alice) ∷ traffic) old_buckets ≡ 2
unfolding requests text_beq
passed_lem_example =
    passed_lem 2 10 refl refl alice 20 traffic old_buckets opened_before
      ((λ e. omega arith), ((λ e. omega arith), ((λ e. omega arith), (in_window, tt))))

-- A decimal number of one digit.
abbrev one_digit : Text → Option ℤ
one_digit (c ∷ []) = some (pos (c - 48))
one_digit _ = none

two_scopes : parse_project_ids_header one_digit (lit " 3, 7,12,3") ≡ pos 3 ∷ pos 7 ∷ []
unfolding parse_project_ids_header lit is_space normalize_project_ids
two_scopes = refl

require_project_access_iff_example :
    (require_project_access (identity_of one_digit [] (lit "3,7") []) (pos 7) ≡ none) ↔ (
      (not_positive (pos 7) ≡ true)
      ⊎ ((no_ids (scope one_digit [] (lit "3,7")) && is_empty (trim_space [])) ≡ true)
      ⊎ (member (pos 7) (scope one_digit [] (lit "3,7")) ≡ true))
require_project_access_iff_example = require_project_access_iff one_digit [] (lit "3,7") [] (pos 7)
