-- ===== src/Versioning/Model.antt =====
-- The types of internal/versioning/service.go. A float64 is a natural number, its bits; the operations on
-- them are a record.
use yolo_ave_mujica.Base.{ℕ, suc, zero, ℤ, pos, negsuc, Bool, Option, List}

-- The arithmetic and the comparisons of float64, math.Max and math.Min, and the conversion of an int.
pub record Floats : Type 0 where
  pub add : ℕ → ℕ → ℕ
  pub sub : ℕ → ℕ → ℕ
  pub mul : ℕ → ℕ → ℕ
  pub div : ℕ → ℕ → ℕ
  pub largest : ℕ → ℕ → ℕ
  pub smallest : ℕ → ℕ → ℕ
  pub less : ℕ → ℕ → Bool
  pub at_most : ℕ → ℕ → Bool
  pub equal : ℕ → ℕ → Bool
  pub of_int : ℤ → ℕ

-- The bits of 0.0, 0.5 and 1.0.
abbrev pub float_zero : ℕ
float_zero = 0

abbrev pub float_half : ℕ
float_half = 0x3fe0000000000000

abbrev pub float_one : ℕ
float_one = 0x3ff0000000000000

pub record Annotation : Type 0 where
  pub item_id : ℤ
  pub category_id : ℤ
  pub bbox_x : ℕ
  pub bbox_y : ℕ
  pub bbox_w : ℕ
  pub bbox_h : ℕ

pub record Change : Type 0 where
  pub item_id : ℤ
  pub category_id : ℤ
  pub before : Option Annotation
  pub after : Option Annotation
  pub iou : ℕ

pub record CategoryDelta : Type 0 where
  pub category_id : ℤ
  pub added_count : ℕ
  pub removed_count : ℕ
  pub updated_count : ℕ
  pub net_box_delta : ℤ

pub record DiffStats : Type 0 where
  pub added_count : ℕ
  pub removed_count : ℕ
  pub updated_count : ℕ
  pub total_box_delta : ℤ
  pub average_iou_drift : ℕ
  pub per_category_delta : List CategoryDelta

pub record DiffResult : Type 0 where
  pub adds : List Change
  pub removes : List Change
  pub updates : List Change
  pub stats : DiffStats
  pub compatibility_score : ℕ

-- `n++`, `n--` and the difference of two counts.
unfoldable pub next_int : ℤ → ℤ
next_int (pos n) = pos (suc n)
next_int (negsuc zero) = pos 0
next_int (negsuc (suc n)) = negsuc n

unfoldable pub last_int : ℤ → ℤ
last_int (pos zero) = negsuc 0
last_int (pos (suc n)) = pos n
last_int (negsuc n) = negsuc (suc n)

unfoldable pub difference : ℕ → ℕ → ℤ
unfolding last_int
difference m zero = pos m
difference m (suc n) = last_int (difference m n)
