-- ===== src/Base/Distinct.antt =====
-- Texts in a list: whether one is there, and lists without repetition.
use mathlib.Core.Path.{◌≡◌}
use mathlib.Core.Bool.{Bool, false, ◌||◌}
use mathlib.Core.List.{List, [], ◌∷◌, ◌++◌}
use native.Mathlib.Omega.{arith}
use copilot_openai_proxy.Base.Text.{Text, text_eq, text_eq_iff}

unfoldable pub elem : Text → List Text → Bool
elem k [] = false
elem k (j ∷ ids) = text_eq j k || elem k ids

abbrev pub Distinct : List Text → Type 0
Distinct [] = Unit
Distinct (id ∷ ids) = (elem id ids ≡ false) × Distinct ids

pub elem-append :
    (k j : Text) (ids : List Text) → elem k (ids ++ j ∷ []) ≡ (elem k ids || text_eq j k)
unfolding elem
elem-append k j [] = ground arith
elem-append k j (i ∷ ids) = ground (arith, elem-append k j ids)

pub append-Distinct :
    (j : Text) (ids : List Text) → elem j ids ≡ false → Distinct ids → Distinct (ids ++ j ∷ [])
unfolding elem
append-Distinct j [] h d = ground arith
append-Distinct j (i ∷ ids) h d =
    ground (arith, append-Distinct j ids, elem-append i j ids, text_eq_iff i j, text_eq_iff j i)
