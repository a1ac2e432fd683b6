-- ===== src/Prelude/Texts.antt =====
-- Python's text methods, over the native texts. Case mapping is that of the ASCII letters.
use Prim.Native.Nat.{ℕ, zero, suc, ◌-◌, ◌%◌, ◌/◌, ◌≤◌}
use Prim.Native.Char.{Char, code}
use Prim.Native.String.{String, ◌++◌, count}
use mathlib.Core.Path.{◌≡◌, refl, ap₂}
use mathlib.Core.Logic.{inl, inr}
use mathlib.Core.Bool.{Bool, true, false, ◌&&◌, ◌||◌}
use mathlib.Core.Option.{none, some}
use mathlib.Core.List.{List, [], ◌∷◌}
use native.Mathlib.Omega.{arith}
use text.Mathlib.Text.{find?, starts_with}
use text.Mathlib.TextLemmas.{length-nil, length-cons}
use cft_security_agent.Prelude.Tests.{leb, ◌==◌, nat_eq, text_eq, if◌then◌else◌, Bool-cases}

nth_char : String → ℕ → Char → Char
nth_char String.[] n d = d
nth_char (String.◌∷◌ c s) zero d = c
nth_char (String.◌∷◌ c s) (suc n) d = nth_char s n d

lower_char : Char → Char
unfolding nth_char
lower_char c =
    if leb b'A' (code c) && leb (code c) b'Z'
    then nth_char "abcdefghijklmnopqrstuvwxyz" (code c - b'A') "a"
    else c

upper_char : Char → Char
unfolding nth_char
upper_char c =
    if leb b'a' (code c) && leb (code c) b'z'
    then nth_char "ABCDEFGHIJKLMNOPQRSTUVWXYZ" (code c - b'a') "A"
    else c

-- `s.lower()`
unfoldable pub lower : String → String
unfolding lower_char
lower String.[] = ""
lower (String.◌∷◌ c s) = String.◌∷◌ (lower_char c) (lower s)

-- `s.upper()`
unfoldable pub upper : String → String
unfolding upper_char
upper String.[] = ""
upper (String.◌∷◌ c s) = String.◌∷◌ (upper_char c) (upper s)

-- the code points for which `str.isspace` holds
unfoldable pub is_space : ℕ → Bool
is_space n =
    (leb 9 n && leb n 13)
    || (leb 28 n && leb n 32)
    || n == 133
    || n == 160
    || n == 5760
    || (leb 8192 n && leb n 8202)
    || n == 8232
    || n == 8233
    || n == 8239
    || n == 8287
    || n == 12288

unfoldable pub strip_left : String → String
unfolding is_space
strip_left String.[] = ""
strip_left (String.◌∷◌ c s) =
    let rest = strip_left s in if is_space (code c) then rest else String.◌∷◌ c s

unfoldable pub strip_right : String → String
unfolding is_space
strip_right String.[] = ""
strip_right (String.◌∷◌ c s) =
    let rest = strip_right s in if rest == "" && is_space (code c) then "" else String.◌∷◌ c rest

-- `s.strip()`
unfoldable pub strip : String → String
unfolding strip_left strip_right
strip s = strip_right (strip_left s)

-- `needle in s`
abbrev pub includes : String → String → Bool
includes needle s = elim (find? s needle) [ none ↦ false | some _ ↦ true ]

-- `s.endswith(suffix)`
unfoldable pub ends_with : String → String → Bool
ends_with String.[] t = t == ""
ends_with (String.◌∷◌ c s) t = String.◌∷◌ c s == t || ends_with s t

-- every character of a text passes the test on its code point
unfoldable pub every_char : (ℕ → Bool) → String → Bool
every_char p String.[] = true
every_char p (String.◌∷◌ c s) = p (code c) && every_char p s

digits : ℕ → ℕ → String → String
unfolding nth_char
digits zero n out = out
digits (suc fuel) n out =
    let out' = String.◌∷◌ (nth_char "0123456789" (n % 10) "0") out in
    let rest = digits fuel (n / 10) out' in if n / 10 == 0 then out' else rest

-- `str(n)`: a number has at most `n + 1` digits
unfoldable pub show : ℕ → String
unfolding digits
show n = digits (suc n) n ""

-- `sep.join(parts)`
unfoldable pub join : String → List String → String
join sep [] = ""
join sep (s ∷ []) = s
join sep (s ∷ t ∷ ts) = s ++ (sep ++ join sep (t ∷ ts))

nth_char-every :
    (p : ℕ → Bool) (s : String) (n : ℕ) (d : Char)
    → every_char p s ≡ true
    → p (code d) ≡ true
    → p (code (nth_char s n d)) ≡ true
unfolding nth_char every_char
nth_char-every p String.[] n d h q = q
nth_char-every p (String.◌∷◌ c s) zero d h q = ground arith
nth_char-every p (String.◌∷◌ c s) (suc n) d h q = nth_char-every p s n d (ground arith) q

upper_char-is_capital :
    (n : ℕ) → leb (code (nth_char "ABCDEFGHIJKLMNOPQRSTUVWXYZ" n "A")) b'Z' ≡ true
upper_char-is_capital n =
    nth_char-every (λ m. leb m b'Z') "ABCDEFGHIJKLMNOPQRSTUVWXYZ" n "A" (unfold every_char in refl)
      refl

upper_char-upper_char : (c : Char) → upper_char (upper_char c) ≡ upper_char c
unfolding upper_char
upper_char-upper_char c = elim (Bool-cases (leb b'a' (code c) && leb (code c) b'z')) [
  | inl p ↦ rw p (ground (arith, upper_char-is_capital (code c - b'a')))
  | inr p ↦ rw (p, p)
]

-- Upper case is upper case already.
pub upper-upper : (s : String) → upper (upper s) ≡ upper s
unfolding upper
upper-upper String.[] = refl
upper-upper (String.◌∷◌ c s) = ap₂ String.◌∷◌ (upper_char-upper_char c) (upper-upper s)

strip_test : strip "  a b\n " ≡ "a b"
unfolding strip
strip_test = refl

lower_test : lower "Hi-Z9" ≡ "hi-z9"
unfolding lower
lower_test = refl

show_test : show 1024 ≡ "1024"
unfolding show
show_test = refl

join_test : join " and " ("a" ∷ "b" ∷ "c" ∷ []) ≡ "a and b and c"
unfolding join
join_test = refl

ends_with_test : ends_with "x_artifact_id" "_artifact_id" ≡ true
unfolding ends_with
ends_with_test = refl

-- `len(s)` and `s[:n]`
abbrev pub size : String → ℕ
size s = count s

unfoldable pub take_chars : ℕ → String → String
take_chars zero s = ""
take_chars (suc n) String.[] = ""
take_chars (suc n) (String.◌∷◌ c s) = String.◌∷◌ c (take_chars n s)

pub size-take_chars : (n : ℕ) (s : String) → size (take_chars n s) ≤ n
unfolding take_chars
size-take_chars zero s = omega (arith, length-nil)
size-take_chars (suc n) String.[] = omega (arith, length-nil)
size-take_chars (suc n) (String.◌∷◌ c s) =
    omega (arith, length-cons c (take_chars n s), size-take_chars n s)

-- `s.split(marker, 1)[0]`
unfoldable pub before : String → String → String
before marker String.[] = ""
before marker (String.◌∷◌ c s) =
    if starts_with (String.◌∷◌ c s) marker then "" else String.◌∷◌ c (before marker s)

-- the text without its first characters
unfoldable pub drop_chars : ℕ → String → String
drop_chars ℕ.zero s = s
drop_chars (suc n) String.[] = ""
drop_chars (suc n) (String.◌∷◌ c s) = drop_chars n s
