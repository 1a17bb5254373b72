-- ===== src/Auth/Scope.antt =====
-- The caller's identity and its projects, of internal/auth/context.go. strconv.ParseInt(s, 10, 64) of
-- the standard library is the parameter `parse`, none for an error. The context carries an optional
-- identity.
pub mod Access
use yolo_ave_mujica.Base.{
  ℕ, ℤ, ◌≡◌, refl, ◌↔◌, ◌⊎◌, inl, inr, not_positive, int_key, int_beq, int_beq_iff, nat_beq, Bool,
  true, false, not, ◌&&◌, ◌||◌, if◌then◌else◌, ◌==◌, Text, is_empty, trim_space, List, [], ◌∷◌,
  Option, none, some, arith, Bool-cases,
}

pub record Identity : Type 0 where
  pub actor : Text
  pub project_ids : List ℤ

-- ErrForbidden, the one error of the package.
pub data Forbidden : Type 0 where
  forbidden : Forbidden

abbrev pub member : ℤ → List ℤ → Bool
member p [] = false
member p (q ∷ ps) = q == p || member p ps

-- The loop of normalizeProjectIDs, with the ids that it has seen.
unfoldable pub distinct_ids : List ℤ → List ℤ → List ℤ
distinct_ids seen [] = []
distinct_ids seen (p ∷ ps) = elim (not_positive p || member p seen) [
  | true ↦ distinct_ids seen ps
  | false ↦ p ∷ distinct_ids (p ∷ seen) ps
]

unfoldable pub normalize_project_ids : List ℤ → List ℤ
unfolding distinct_ids
normalize_project_ids = distinct_ids []

unfoldable pub new_identity : Text → List ℤ → Identity
unfolding normalize_project_ids trim_space
new_identity actor ids = record {
  actor = trim_space actor;
  project_ids = normalize_project_ids ids;
}

unfoldable pub allows_project : Identity → ℤ → Bool
allows_project i p = not_positive p || member p i.project_ids

unfoldable pub require_project_access : Option Identity → ℤ → Option Forbidden
unfolding allows_project
require_project_access none p = none
require_project_access (some i) p = if allows_project i p then none else some forbidden

-- strings.Split(raw, ","), the part before the first comma first.
unfoldable pub split_commas : Text → List Text
split_commas [] = [] ∷ []
split_commas (c ∷ s) = elim (split_commas s) [
  | [] ↦ (c ∷ []) ∷ []
  | part ∷ parts ↦ if nat_beq c b',' then [] ∷ part ∷ parts else (c ∷ part) ∷ parts
]

abbrev first_given : List ℤ → List ℤ → List ℤ
first_given [] defaults = defaults
first_given (p ∷ ps) defaults = p ∷ ps

abbrev pub no_ids : List ℤ → Bool
no_ids [] = true
no_ids (p ∷ ps) = false

module _ (parse : Text → Option ℤ) where
  unfoldable pub positive_parts : List Text → List ℤ
  unfolding trim_space
  positive_parts [] = []
  positive_parts (part ∷ parts) =
      let rest = positive_parts parts in
      elim (parse (trim_space part)) [
        | none ↦ rest
        | some p ↦ if not_positive p then rest else p ∷ rest
      ]

  unfoldable pub parse_project_ids_header : Text → List ℤ
  unfolding positive_parts split_commas
  parse_project_ids_header raw =
      if is_empty (trim_space raw)
      then []
      else normalize_project_ids (positive_parts (split_commas raw))

  -- The projects that IdentityMiddleware takes: the header's if it names any, else the defaults.
  unfoldable pub scope : List ℤ → Text → List ℤ
  unfolding parse_project_ids_header
  scope defaults header =
      first_given (parse_project_ids_header header) (normalize_project_ids defaults)

  -- The identity that IdentityMiddleware puts into the context; WithIdentity makes it anew.
  unfoldable pub identity_of : List ℤ → Text → Text → Option Identity
  unfolding scope new_identity
  identity_of defaults header actor_header =
      let ids = scope defaults header in
      let i = new_identity (trim_space actor_header) ids in
      if no_ids ids && is_empty (trim_space actor_header)
      then none
      else some (new_identity i.actor i.project_ids)
