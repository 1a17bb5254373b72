-- ===== src/Auth/Scope/Access.antt =====
-- What a caller may access (RequireProjectAccess and IdentityMiddleware of internal/auth/context.go).
use yolo_ave_mujica.Base.{
  ℤ, ◌≡◌, refl, ◌∙◌, ◌↔◌, ◌⊎◌, inl, inr, not_positive, int_beq, int_beq_iff, true, false, not, ◌&&◌,
  ◌||◌, Text, is_empty, trim_space, List, [], ◌∷◌, Option, none, some, arith, Bool-cases,
}
use yolo_ave_mujica.Auth.Scope.{
  member, distinct_ids, normalize_project_ids, new_identity, allows_project, require_project_access,
  scope, identity_of, no_ids,
}

member-distinct_ids :
    (p : ℤ) (seen ids : List ℤ)
    → not_positive p ≡ false
    → member p (distinct_ids seen ids) ≡ (member p ids && not (member p seen))
unfolding distinct_ids
member-distinct_ids p seen [] positive = refl
member-distinct_ids p seen (q ∷ ids) positive =
    elim (Bool-cases (not_positive q || member q seen)) [
      | inl skip ↦
          let later = member-distinct_ids p seen ids positive in
          elim (Bool-cases (int_beq q p)) [
            | inr differs ↦ rw (skip, distinct_ids, differs, later) refl
            | inl same ↦
                let e : q ≡ p = (int_beq_iff q p).0 same in
                let seen_p : member p seen ≡ true = ground (arith, rw e at skip) in
                rw (skip, distinct_ids, same, later, seen_p) (ground arith)
          ]
      | inr keep ↦
          let later = member-distinct_ids p (q ∷ seen) ids positive in
          elim (Bool-cases (int_beq q p)) [
            | inr differs ↦ rw (keep, distinct_ids, differs, later) (rw differs refl)
            | inl same ↦
                let e : q ≡ p = (int_beq_iff q p).0 same in
                let unseen : member p seen ≡ false = ground (arith, rw e at keep) in
                rw (keep, distinct_ids, same, unseen) refl
          ]
    ]

member_normalize :
    (p : ℤ) (ids : List ℤ)
    → not_positive p ≡ false
    → member p (normalize_project_ids ids) ≡ member p ids
unfolding normalize_project_ids
member_normalize p ids positive = member-distinct_ids p [] ids positive ∙ ground arith

normalized_iff :
    (p : ℤ) (ids : List ℤ)
    → ((not_positive p ≡ true) ⊎ (member p (normalize_project_ids ids) ≡ true))
      ↔ ((not_positive p ≡ true) ⊎ (member p ids ≡ true))
normalized_iff p ids = elim (Bool-cases (not_positive p)) [
  | inl free ↦ ((λ h. inl free), λ h. inl free)
  | inr positive ↦ rw (member_normalize p ids positive) ((λ h. h), λ h. h)
]

-- A positive id, and an identity made by NewIdentity.
access_iff :
    (actor : Text) (ids : List ℤ) (p : ℤ)
    → (require_project_access (some (new_identity actor ids)) p ≡ none)
      ↔ ((not_positive p ≡ true) ⊎ (member p ids ≡ true))
unfolding require_project_access allows_project new_identity
access_iff actor ids p =
    let same = member_normalize p ids in
    elim (Bool-cases (not_positive p)) [
      | inl free ↦ rw free ((λ h. inl refl), λ h. refl)
      | inr positive ↦
          rw (positive, same positive)
            ((λ h. inr (ground arith)), λ h. elim h [ inl e ↦ cc | inr e ↦ rw e refl ])
    ]

module _ (parse : Text → Option ℤ) where
  -- A project is accessible exactly if it is not a positive id, or the caller is unrestricted, which is
  -- one with neither projects nor an actor, or the project is in the caller's scope.
  pub require_project_access_iff :
      (defaults : List ℤ) (header actor : Text) (p : ℤ)
      → (require_project_access (identity_of parse defaults header actor) p ≡ none) ↔ (
          (not_positive p ≡ true)
          ⊎ ((no_ids (scope parse defaults header) && is_empty (trim_space actor)) ≡ true)
          ⊎ (member p (scope parse defaults header) ≡ true))
  unfolding require_project_access identity_of allows_project new_identity
  require_project_access_iff defaults header actor p =
      let ids = scope parse defaults header in
      let own = access_iff (trim_space (trim_space actor)) (normalize_project_ids ids) p in
      elim (Bool-cases (no_ids ids && is_empty (trim_space actor))) [
        | inl free ↦ rw free ((λ h. inr (inl refl)), λ h. refl)
        | inr bound ↦ rw bound (
          λ h. elim ((normalized_iff p ids).0 (own.0 h)) [ inl e ↦ inl e | inr m ↦ inr (inr m) ],
          λ h. elim h [
            | inl e ↦ own.1 (inl e)
            | inr (inl e) ↦ cc
            | inr (inr m) ↦ own.1 ((normalized_iff p ids).1 (inr m))
          ],
        )
      ]
