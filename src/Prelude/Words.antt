-- ===== src/Prelude/Words.antt =====
-- Words of a text, and lists of texts sorted and printed.
use Prim.Native.Char.{code}
use Prim.Native.String.{String, ◌++◌, compare}
use mathlib.Core.Path.{◌≡◌, refl}
use Prim.Native.Nat.{ℕ}
use mathlib.Core.Bool.{Bool, true, false, not, ◌&&◌, ◌||◌}
use mathlib.Core.List.{List, [], ◌∷◌}
use native.Mathlib.Omega.{arith}
use text.Mathlib.Text.{is_lt}
use cft_security_agent.Prelude.Tests.{leb, ◌==◌, nat_eq, text_eq, if◌then◌else◌}
use cft_security_agent.Prelude.Lists.{keep, non_empty}
use cft_security_agent.Prelude.Texts.{is_space, join}

-- the first of the pieces is the word that the scan is in
pieces : String → List String
unfolding is_space
pieces String.[] = "" ∷ []
pieces (String.◌∷◌ c s) =
    let rest = pieces s in
    if is_space (code c) then "" ∷ rest else elim rest [ [] ↦ [] | w ∷ ws ↦ String.◌∷◌ c w ∷ ws ]

-- `s.split()`
unfoldable pub words : String → List String
unfolding pieces
words s = keep (λ w. not (w == "")) (pieces s)

words_test : words "  a  bc d " ≡ "a" ∷ "bc" ∷ "d" ∷ []
unfolding words
words_test = refl

-- `sorted(texts)`, by code points
insert_text : String → List String → List String
insert_text s [] = s ∷ []
insert_text s (t ∷ ts) =
    let rest = t ∷ insert_text s ts in if is_lt (compare t s) then rest else s ∷ t ∷ ts

non_empty-insert_text : (s : String) (ts : List String) → non_empty (insert_text s ts) ≡ true
unfolding insert_text
non_empty-insert_text s [] = refl
non_empty-insert_text s (t ∷ ts) = ground arith

unfoldable pub sorted : List String → List String
unfolding insert_text
sorted [] = []
sorted (s ∷ ss) = insert_text s (sorted ss)

pub non_empty-sorted : (ss : List String) → non_empty (sorted ss) ≡ non_empty ss
unfolding sorted
non_empty-sorted [] = refl
non_empty-sorted (s ∷ ss) = non_empty-insert_text s (sorted ss)

quoted : List String → List String
quoted [] = []
quoted (s ∷ ss) = ("'" ++ (s ++ "'")) ∷ quoted ss

-- the text of a list of names that hold no quote, backslash or control character
unfoldable pub repr_names : List String → String
unfolding quoted
repr_names ss = "[" ++ (join ", " (quoted ss) ++ "]")

sorted_test : repr_names (sorted ("b" ∷ "c" ∷ "a" ∷ [])) ≡ "['a', 'b', 'c']"
unfolding repr_names sorted join
sorted_test = refl

-- Python's line boundaries, but for the pair of a carriage return and a line feed, which is one
abbrev is_line_end : ℕ → Bool
is_line_end c =
    (leb 10 c && leb c 13) || (leb 28 c && leb c 30) || (c == 133 || (c == 8232 || c == 8233))

-- the lines of a text; the flag says that a carriage return ended the line before
line_pieces : Bool → String → List String
line_pieces after_return String.[] = []
line_pieces after_return (String.◌∷◌ c s) =
    let returns = line_pieces true s in
    let rest = line_pieces false s in
    if code c == 10 && after_return
    then rest
    else if code c == 13
    then "" ∷ returns
    else if is_line_end (code c)
    then "" ∷ rest
    else elim rest [ [] ↦ String.◌∷◌ c "" ∷ [] | w ∷ ws ↦ String.◌∷◌ c w ∷ ws ]

-- `s.splitlines()`
unfoldable pub split_lines : String → List String
unfolding line_pieces
split_lines s = line_pieces false s

split_lines_test : split_lines "a\n\nbc\r\nd\n" ≡ "a" ∷ "" ∷ "bc" ∷ "d" ∷ []
unfolding split_lines
split_lines_test = refl
