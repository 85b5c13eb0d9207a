-- ===== src/Json/Text.antt =====
-- Characters of a text, and which of them `str.strip` takes for spaces.
use Prim.Native.Char.{code}
use Prim.Native.String.{String}
use plan_auditor.Base.{ℕ, Bool, ◌&&◌, ◌||◌, List, [], ◌∷◌, all, leb, nat_beq}

unfoldable pub codes : String → List ℕ
codes String.[] = []
codes (String.◌∷◌ c s) = code c ∷ codes s

-- The texts of one character that `for c in s` yields.
unfoldable pub characters : String → List String
characters String.[] = []
characters (String.◌∷◌ c s) = String.◌∷◌ c String.[] ∷ characters s

-- The code points for which `str.isspace` holds.
unfoldable pub is_space : ℕ → Bool
is_space c =
    (leb 9 c && leb c 13)
    || (leb 28 c && leb c 32)
    || nat_beq c 133
    || nat_beq c 160
    || nat_beq c 5760
    || (leb 8192 c && leb c 8202)
    || nat_beq c 8232
    || nat_beq c 8233
    || nat_beq c 8239
    || nat_beq c 8287
    || nat_beq c 12288

-- `not s.strip()`
unfoldable pub is_blank : String → Bool
unfolding codes is_space
is_blank s = all is_space (codes s)
