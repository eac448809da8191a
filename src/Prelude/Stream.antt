-- ===== src/Prelude/Stream.antt =====
-- A text file as the list of what successive calls of `fgets` return up to the end of the file.
use Prim.Native.Nat.{ℕ, ◌+◌, ◌-◌, ◌<◌}
use mathlib.Core.Path.{◌≡◌, refl}
use mathlib.Core.Bool.{◌||◌}
use mathlib.Core.List.{List, [], ◌∷◌, ◌++◌}
use native.Mathlib.Omega.{arith}
use rmsgw.Prelude.Tests.{leb, ◌==◌, if◌then◌else◌}
use rmsgw.Prelude.Lists.{length}
use rmsgw.Prelude.Strings.{Str, Lacks}

abbrev cons_head : ℕ → List Str → List Str
cons_head c [] = (c ∷ []) ∷ []
cons_head c (l ∷ ls) = (c ∷ l) ∷ ls

-- The results, where the next one takes `room` bytes at most and every later one `size - 1`.
unfoldable pub lines_from : ℕ → ℕ → Str → List Str
lines_from size room [] = []
lines_from size room (c ∷ s) =
    let ends = c == b'\n' || leb room 1 in
    let rest = lines_from size (if ends then size - 1 else room - 1) s in
    if ends then (c ∷ []) ∷ rest else cons_head c rest

-- `fgets(s, size, fp)` until it returns NULL.
unfoldable pub fgets_lines : ℕ → Str → List Str
unfolding lines_from
fgets_lines size text = lines_from size (size - 1) text

lines_from-append :
    (size room : ℕ) (line rest : Str)
    → length line < room
    → Lacks b'\n' line
    → lines_from size room (line ++ (b'\n' ∷ rest))
      ≡ (line ++ b'\n' ∷ []) ∷ lines_from size (size - 1) rest
unfolding lines_from
lines_from-append size room [] rest h k = refl
lines_from-append size room (c ∷ line) rest h k =
    ground (arith, k.0, lines_from-append size (room - 1) line rest (omega arith) k.1)

-- A line that fits is returned whole.
pub fgets_lines-append :
    (size : ℕ) (line rest : Str)
    → length line + 1 < size
    → Lacks b'\n' line
    → fgets_lines size (line ++ (b'\n' ∷ rest)) ≡ (line ++ b'\n' ∷ []) ∷ fgets_lines size rest
unfolding fgets_lines
fgets_lines-append size line rest h k = lines_from-append size (size - 1) line rest (omega arith) k
