-- ===== src/Versioning/Counts.antt =====
-- The counts of DiffSnapshots in internal/versioning/service.go: each annotation of a group is matched at
-- most once.
use yolo_ave_mujica.Base.{
  ℕ, suc, zero, ◌+◌, ◌≡◌, refl, ◌∙◌, ap, inl, inr, Bool, true, false, List, [], ◌∷◌, ◌++◌, some,
  arith, Bool-cases, Option-cases,
}
use yolo_ave_mujica.Versioning.Model.{Floats, Annotation}
use yolo_ave_mujica.Versioning.Matching.{
  mark, is_marked, unmarked, Index, candidates, first_free, claim_exact_match, match_exactly,
}
use yolo_ave_mujica.Versioning.Diff.{count}

-- How many are not matched.
abbrev pub free : List Bool → ℕ
free [] = 0
free (true ∷ bs) = free bs
free (false ∷ bs) = suc (free bs)

pub count-append : {A : Type 0} (xs : List A) (x : A) → count (xs ++ (x ∷ [])) ≡ suc (count xs)
count-append [] x = refl
count-append (y ∷ ys) x = let h = count-append ys x in omega arith

pub free-mark : (i : ℕ) (m : List Bool) → is_marked i m ≡ false → suc (free (mark i m)) ≡ free m
unfolding mark is_marked
free-mark i [] h = cc
free-mark zero (true ∷ m) h = cc
free-mark zero (false ∷ m) h = refl
free-mark (suc i) (true ∷ m) h = free-mark i m h
free-mark (suc i) (false ∷ m) h = ap suc (free-mark i m h)

pub count-mark : (i : ℕ) (m : List Bool) → count (mark i m) ≡ count m
unfolding mark
count-mark i [] = refl
count-mark zero (b ∷ m) = refl
count-mark (suc i) (b ∷ m) = ap suc (count-mark i m)

first_free_lem :
    (is : List ℕ) (m : List Bool) (i : ℕ) → (first_free is m).0 ≡ some i → is_marked i m ≡ false
unfolding first_free
first_free_lem [] m i h = cc
first_free_lem (j ∷ is) m i h = elim (Bool-cases (is_marked j m)) [
  | inl e ↦ first_free_lem is m i (rw e at h)
  | inr e ↦ let f : some j ≡ some i = rw e at h in let g : j ≡ i = cc in rw (← g) e
]

pub free-unmarked :
    (xs : List Annotation) → (free (unmarked xs) ≡ count xs) × (count (unmarked xs) ≡ count xs)
unfolding unmarked
free-unmarked [] = (refl, refl)
free-unmarked (x ∷ xs) = let (f, c) = free-unmarked xs in (ap suc f, ap suc c)

-- The exact matches pair annotations one to one.
abbrev pub Paired : List Annotation → List Bool → List Bool → List Bool → Type 0
Paired bs matched before after =
    (count bs + free after ≡ free before + free matched)
    × (count before ≡ count bs)
    × (count after ≡ count matched)

module _ (fl : Floats) where
  pub match_exactly_lem :
      (bs : List Annotation) (index : Index) (matched : List Bool)
      → let (before, after) = match_exactly fl bs index matched in Paired bs matched before after
  unfolding match_exactly claim_exact_match
  match_exactly_lem [] index matched = (omega arith, refl, refl)
  match_exactly_lem (b ∷ bs) index matched =
      let c = claim_exact_match fl index b matched in
      elim (Option-cases c.0) [
        | inl e ↦
            let (x, y, z) = match_exactly_lem bs c.1 matched in
            rw (e, match_exactly) (omega arith, omega arith, z)
        | inr (i, e) ↦
            let unclaimed = first_free_lem (candidates fl b index) matched i e in
            let marked = free-mark i matched unclaimed in
            let same = count-mark i matched in
            let (x, y, z) = match_exactly_lem bs c.1 (mark i matched) in
            rw (e, match_exactly) (omega arith, omega arith, z ∙ same)
      ]
