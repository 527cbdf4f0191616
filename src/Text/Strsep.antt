-- ===== src/Text/Strsep.antt =====
-- The C library's strsep, on the memory of a C string.
use testcluster.Prelude.{
  ℕ, ◌≡◌, ◌≢◌, refl, Option, none, some, [], ◌∷◌, ◌++◌, ◌==◌, if◌then◌else◌, arith,
}
use testcluster.Pack.Order.{Bytes}
use testcluster.Pack.Decode.{Access, ◌>>=◌}
use testcluster.Text.Divide.{Lacks}

-- The text before the gap or the end mark, and what is behind the gap; there a NULL stands for a string without the gap.
unfoldable pub strsep : ℕ → Bytes → Access (Bytes × Option Bytes)
strsep gap [] = none
strsep gap (c ∷ rest) =
    let more = strsep gap rest in
    if c == 0
    then some ([], none)
    else if c == gap
    then some ([], some rest)
    else (do (word, left) ← more; some (c ∷ word, left))

pub strsep-at :
    (gap : ℕ) (word memory : Bytes)
    → gap ≢ 0
    → Lacks 0 word
    → Lacks gap word
    → strsep gap (word ++ gap ∷ memory) ≡ some (word, some memory)
unfolding strsep
strsep-at gap [] memory real text lacks = ground arith
strsep-at gap (c ∷ word) memory real text lacks =
    ground (arith, strsep-at gap word memory real (text.1) (lacks.1))

pub strsep-end :
    (gap : ℕ) (word memory : Bytes)
    → Lacks 0 word
    → Lacks gap word
    → strsep gap (word ++ 0 ∷ memory) ≡ some (word, none)
unfolding strsep
strsep-end gap [] memory text lacks = refl
strsep-end gap (c ∷ word) memory text lacks =
    ground (arith, strsep-end gap word memory (text.1) (lacks.1))
