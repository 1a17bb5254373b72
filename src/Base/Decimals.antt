-- ===== src/Base/Decimals.antt =====
-- `%d` of package fmt.
use Prim.Native.Nat.{ℕ, zero, suc, ◌+◌, ◌/◌, ◌%◌}
use mathlib.Core.List.{[], ◌∷◌}
use yolo_ave_mujica.Base.Tests.{ltb, if◌then◌else◌}
use yolo_ave_mujica.Base.Int.{ℤ, pos, negsuc}
use yolo_ave_mujica.Base.Texts.{Text}

-- The digits of `n` before `acc`. A number has fewer digits than its successor.
unfoldable pub digits : ℕ → ℕ → Text → Text
digits zero n acc = acc
digits (suc fuel) n acc =
    let more = digits fuel (n / 10) ((b'0' + n % 10) ∷ acc) in
    if ltb n 10 then (b'0' + n) ∷ acc else more

unfoldable pub decimal : ℕ → Text
unfolding digits
decimal n = digits (suc n) n []

unfoldable pub decimal_int : ℤ → Text
unfolding decimal
decimal_int (pos n) = decimal n
decimal_int (negsuc n) = b'-' ∷ decimal (suc n)
