-- ===== src/Json/Order.antt =====
-- The order of Python's texts, by code points, in which `sorted` puts them.
use plan_auditor.Base.{
  ℕ, String, Bool, true, false, ◌&&◌, ◌||◌, List, [], ◌∷◌, ltb, nat_beq, sort_with,
}
use plan_auditor.Json.Text.{codes}

unfoldable pub codes_le : List ℕ → List ℕ → Bool
codes_le [] ys = true
codes_le (x ∷ xs) [] = false
codes_le (x ∷ xs) (y ∷ ys) = ltb x y || nat_beq x y && codes_le xs ys

unfoldable pub text_le : String → String → Bool
unfolding codes codes_le
text_le s t = codes_le (codes s) (codes t)

unfoldable pub sort_texts : List String → List String
unfolding text_le sort_with
sort_texts xs = sort_with text_le xs
