-- ===== src/Versioning/Groups.antt =====
-- The groups of DiffSnapshots in internal/versioning/service.go hold every annotation once.
use yolo_ave_mujica.Base.{
  ℕ, ◌+◌, ◌≡◌, refl, sym, ap, inl, inr, Bool, true, false, Text, text_key, text_beq, text_beq_iff,
  ◌==◌, Map, lookup, insert, lookup-insert, Distinct, insert-Distinct, keys, List, [], ◌∷◌, ◌++◌,
  Option, none, some, arith, Bool-cases,
}
use yolo_ave_mujica.Versioning.Model.{Annotation}
use yolo_ave_mujica.Versioning.Diff.{count, members, group_key, group_all, add_keys}
use yolo_ave_mujica.Versioning.Counts.{count-append}

abbrev pub total : List Text → Map Text (List Annotation) → ℕ
total [] groups = 0
total (k ∷ ks) groups = count (members (lookup k groups)) + total ks groups

abbrev one_if : Bool → ℕ
one_if true = 1
one_if false = 0

abbrev pub occurrences : Text → List Text → ℕ
occurrences k [] = 0
occurrences k (j ∷ js) = one_if (k == j) + occurrences k js

abbrev is_some : {A : Type 0} → Option A → Bool
is_some none = false
is_some (some a) = true

total-insert :
    (ks : List Text) (k : Text) (a : Annotation) (groups : Map Text (List Annotation))
    → total ks (insert k (members (lookup k groups) ++ (a ∷ [])) groups)
      ≡ total ks groups + occurrences k ks
total-insert [] k a groups = omega arith
total-insert (j ∷ ks) k a groups =
    let later = total-insert ks k a groups in
    elim (Bool-cases (k == j)) [
      | inl e ↦
          let same : k ≡ j = (text_beq_iff k j).0 e in
          let one_more = count-append (members (lookup k groups)) a in
          let here : count (members (lookup j groups)) ≡ count (members (lookup k groups)) =
            ap (λ i. count (members (lookup i groups))) (sym same) in
          rw (lookup-insert j k (members (lookup k groups) ++ (a ∷ [])) groups, e) (omega arith)
      | inr e ↦
          rw (lookup-insert j k (members (lookup k groups) ++ (a ∷ [])) groups, e) (omega arith)
    ]

-- Every annotation's key occurs once.
abbrev pub Covered : List Text → List Annotation → Type 0
Covered ks [] = Unit {0}
Covered ks (a ∷ rest) = (occurrences (group_key a) ks ≡ 1) × Covered ks rest

pub total-group_all :
    (ks : List Text) (xs : List Annotation) (groups : Map Text (List Annotation))
    → Covered ks xs
    → total ks (group_all xs groups) ≡ total ks groups + count xs
unfolding group_all
total-group_all ks [] groups c = omega arith
total-group_all ks (a ∷ xs) groups (once, c) =
    let later =
      total-group_all ks xs
        (insert (group_key a) (members (lookup (group_key a) groups) ++ (a ∷ [])) groups) c in
    let here = total-insert ks (group_key a) a groups in omega arith

pub total-empty : (ks : List Text) → total ks [] ≡ 0
unfolding lookup
total-empty [] = refl
total-empty (k ∷ ks) = let later = total-empty ks in omega arith

module _ {V : Type 0} where
  absent : (k : Text) (m : Map Text V) → lookup k m ≡ none → occurrences k (keys m) ≡ 0
  unfolding lookup
  absent k [] h = refl
  absent k ((j, v) ∷ rest) h = elim (Bool-cases (j == k)) [
    | inl e ↦ let f : some v ≡ none = rw e at h in cc
    | inr e ↦
        let differs : text_beq k j ≡ false = ground (arith, text_beq_iff k j, text_beq_iff j k) in
        let later = absent k rest (rw e at h) in rw differs (omega arith)
  ]

  once :
      (k : Text) (m : Map Text V)
      → Distinct m
      → is_some (lookup k m) ≡ true
      → occurrences k (keys m) ≡ 1
  unfolding lookup
  once k [] d h = cc
  once k ((j, v) ∷ rest) (fresh, d) h = elim (Bool-cases (j == k)) [
    | inl e ↦
        let same : j ≡ k = (text_beq_iff j k).0 e in
        let equal : text_beq k j ≡ true = (text_beq_iff k j).1 (sym same) in
        let later = absent k rest (rw same at fresh) in rw equal (omega arith)
    | inr e ↦
        let differs : text_beq k j ≡ false = ground (arith, text_beq_iff k j, text_beq_iff j k) in
        let later = once k rest d (rw e at h) in rw differs (omega arith)
  ]

  has-insert :
      (k j : Text) (v : V) (m : Map Text V)
      → is_some (lookup k m) ≡ true
      → is_some (lookup k (insert j v m)) ≡ true
  has-insert k j v m h = elim (Bool-cases (j == k)) [
    | inl e ↦ rw (lookup-insert k j v m, e) refl
    | inr e ↦ rw (lookup-insert k j v m, e) h
  ]

  has_own : (k : Text) (v : V) (m : Map Text V) → is_some (lookup k (insert k v m)) ≡ true
  has_own k v m = rw (lookup-insert k k v m, (text_beq_iff k k).1 refl) refl

add_keys-Distinct :
    (ks : List Text) (m : Map Text (Unit {0})) → Distinct m → Distinct (add_keys ks m)
unfolding add_keys
add_keys-Distinct [] m d = d
add_keys-Distinct (k ∷ ks) m d = add_keys-Distinct ks (insert k tt m) (insert-Distinct k tt m d)

has-add_keys :
    (k : Text) (ks : List Text) (m : Map Text (Unit {0}))
    → is_some (lookup k m) ≡ true
    → is_some (lookup k (add_keys ks m)) ≡ true
unfolding add_keys
has-add_keys k [] m h = h
has-add_keys k (j ∷ ks) m h = has-add_keys k ks (insert j tt m) (has-insert k j tt m h)

added_key :
    {V : Type 0} (k : Text) (g : Map Text V) (m : Map Text (Unit {0}))
    → is_some (lookup k g) ≡ true
    → is_some (lookup k (add_keys (keys g) m)) ≡ true
unfolding lookup add_keys
added_key k [] m h = cc
added_key k ((j, v) ∷ rest) m h = elim (Bool-cases (j == k)) [
  | inl e ↦
      let same : j ≡ k = (text_beq_iff j k).0 e in
      has-add_keys k (keys rest) (insert j tt m) (rw same (has_own k tt m))
  | inr e ↦ added_key k rest (insert j tt m) (rw e at h)
]

has-group_all :
    (k : Text) (xs : List Annotation) (g : Map Text (List Annotation))
    → is_some (lookup k g) ≡ true
    → is_some (lookup k (group_all xs g)) ≡ true
unfolding group_all
has-group_all k [] g h = h
has-group_all k (a ∷ xs) g h =
    has-group_all k xs (insert (group_key a) (members (lookup (group_key a) g) ++ (a ∷ [])) g)
      (has-insert k (group_key a) (members (lookup (group_key a) g) ++ (a ∷ [])) g h)

covered :
    (ks : List Text) (xs : List Annotation) (g : Map Text (List Annotation))
    → ((k : Text) → is_some (lookup k (group_all xs g)) ≡ true → occurrences k ks ≡ 1)
    → Covered ks xs
unfolding group_all
covered ks [] g h = tt
covered ks (a ∷ xs) g h =
    let key = group_key a in
    let more = members (lookup key g) ++ (a ∷ []) in
    (
      h key (has-group_all key xs (insert key more g) (has_own key more g)),
      covered ks xs (insert key more g) h,
    )

-- The keys over which the loop runs cover both sides.
pub keys_cover :
    (before after : List Annotation)
    → let ks =
        keys (add_keys (keys (group_all after [])) (add_keys (keys (group_all before [])) [])) in
      Covered ks before × Covered ks after
keys_cover before after =
    let bg = group_all before [] in
    let ag = group_all after [] in
    let first = add_keys (keys bg) [] in
    let all = add_keys (keys ag) first in
    let distinct : Distinct all =
      add_keys-Distinct (keys ag) first (add_keys-Distinct (keys bg) [] tt) in
    (
      covered (keys all) before []
          (λ k h. once k all distinct (has-add_keys k (keys ag) first (added_key k bg [] h))),
      covered (keys all) after [] (λ k h. once k all distinct (added_key k ag first h)),
    )
