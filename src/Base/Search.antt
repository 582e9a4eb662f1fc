-- ===== src/Base/Search.antt =====
-- The searches of the C library in a text that ends before its first zero byte.
use Prim.Native.Nat.{ℕ}
use satip_client.Base.Tests.{◌==◌, if◌then◌else◌}
use satip_client.Base.Text.{Text}
use mathlib.Core.Bool.{Bool, true, false, ◌&&◌}
use mathlib.Core.Option.{Option, none, some}
use mathlib.Core.List.{List, [], ◌∷◌}

-- A string up to its end.
unfoldable pub c_string : List ℕ → Text
c_string [] = []
c_string (b ∷ bytes) = let rest = c_string bytes in if b == 0 then [] else b ∷ rest

unfoldable pub starts_with : Text → Text → Bool
starts_with [] text = true
starts_with (c ∷ needle) [] = false
starts_with (c ∷ needle) (b ∷ text) = c == b && starts_with needle text

-- `strstr`: the text from the first place that starts with the needle.
unfoldable pub find_text : Text → Text → Option Text
unfolding starts_with
find_text needle [] = if starts_with needle [] then some [] else none
find_text needle (b ∷ text) =
    let later = find_text needle text in
    if starts_with needle (b ∷ text) then some (b ∷ text) else later
