-- ===== src/Base/Sorting.antt =====
-- sort.Strings and sort.Slice with a strict order, as insertion sort.
use mathlib.Core.Bool.{Bool, true, false}
use mathlib.Core.List.{List, [], ◌∷◌}
use yolo_ave_mujica.Base.Tests.{ltb, if◌then◌else◌}
use yolo_ave_mujica.Base.Texts.{Text}

-- Go's `<` on strings; UTF-8 keeps the order of code points.
unfoldable pub text_ltb : Text → Text → Bool
text_ltb s [] = false
text_ltb [] (d ∷ t) = true
text_ltb (c ∷ s) (d ∷ t) = if ltb c d then true else if ltb d c then false else text_ltb s t

module _ {A : Type 0} (less : A → A → Bool) where
  unfoldable pub insert_sorted : A → List A → List A
  insert_sorted a [] = a ∷ []
  insert_sorted a (b ∷ bs) = if less b a then b ∷ insert_sorted a bs else a ∷ b ∷ bs

  unfoldable pub sort : List A → List A
  unfolding insert_sorted
  sort [] = []
  sort (a ∷ as') = insert_sorted a (sort as')
