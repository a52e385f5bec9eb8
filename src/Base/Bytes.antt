-- ===== src/Base/Bytes.antt =====
-- `std::string` as the list of its bytes. The source is UTF-8, so a literal is encoded as UTF-8.
use mathlib.Core.Option.{Option, none, some}
use Prim.Native.Nat.{ℕ, suc, ◌+◌, ◌/◌, ◌%◌}
use Prim.Native.Char.{code}
use Prim.Native.String.{String}
use mathlib.Core.Path.{◌≡◌, refl}
use mathlib.Core.Logic.{◌↔◌}
use mathlib.Core.Bool.{Bool, true, false, ◌&&◌, ◌||◌}
use mathlib.Core.List.{List, [], ◌∷◌, ◌++◌}
use native.Mathlib.Omega.{arith}
use chatroom.Base.Tests.{ltb, ◌==◌, if◌then◌else◌}

abbrev pub Text : Type 0
Text = List ℕ

utf8 : ℕ → Text
utf8 c =
    if ltb c 0x80
    then c ∷ []
    else if ltb c 0x800
    then (0xc0 + c / 0x40) ∷ (0x80 + c % 0x40) ∷ []
    else if ltb c 0x10000
    then (0xe0 + c / 0x1000) ∷ (0x80 + c / 0x40 % 0x40) ∷ (0x80 + c % 0x40) ∷ []
    else (0xf0 + c / 0x40000)
      ∷ (0x80 + c / 0x1000 % 0x40)
      ∷ (0x80 + c / 0x40 % 0x40)
      ∷ (0x80 + c % 0x40)
      ∷ []

unfoldable pub text : String → Text
unfolding utf8
text String.[] = []
text (String.◌∷◌ c s) = utf8 (code c) ++ text s

-- s == t
unfoldable pub eq_text : Text → Text → Bool
eq_text [] [] = true
eq_text [] (y ∷ ys) = false
eq_text (x ∷ xs) [] = false
eq_text (x ∷ xs) (y ∷ ys) = x == y && eq_text xs ys

-- s > t, in the order of the bytes
unfoldable pub gt_text : Text → Text → Bool
gt_text [] ys = false
gt_text (x ∷ xs) [] = true
gt_text (x ∷ xs) (y ∷ ys) = ltb y x || (x == y && gt_text xs ys)

-- strncmp(s.c_str(), prefix, strlen(prefix)) == 0, for a prefix with no zero byte
unfoldable pub starts_with : Text → Text → Bool
starts_with [] s = true
starts_with (p ∷ ps) [] = false
starts_with (p ∷ ps) (c ∷ s) = p == c && starts_with ps s

-- s.find(pattern), for a pattern that is not empty
unfoldable pub find_text : Text → Text → Option ℕ
find_text pattern [] = none
find_text pattern (c ∷ s) = elim (starts_with pattern (c ∷ s)) [
  | true ↦ some 0
  | false ↦ elim (find_text pattern s) [ none ↦ none | some i ↦ some (suc i) ]
]

-- A pattern that does not start here is looked for behind.
pub find_next :
    (pattern s : Text) (c : ℕ)
    → starts_with pattern (c ∷ s) ≡ false
    → find_text pattern (c ∷ s)
      ≡ (elim (find_text pattern s) [ none ↦ none | some i ↦ some (suc i) ])
unfolding find_text
find_next pattern s c h = rw (h, find_text) refl

pub eq_text_refl : (s : Text) → eq_text s s ≡ true
unfolding eq_text
eq_text_refl [] = refl
eq_text_refl (x ∷ xs) = ground (arith, eq_text_refl xs)

pub eq_text_sound : (s t : Text) → eq_text s t ≡ true → s ≡ t
unfolding eq_text
eq_text_sound [] [] h = refl
eq_text_sound [] (y ∷ ys) h = ground arith
eq_text_sound (x ∷ xs) [] h = ground arith
eq_text_sound (x ∷ xs) (y ∷ ys) h = ground (arith, eq_text_sound xs ys)

pub eq_text_iff : (s t : Text) → (eq_text s t ≡ true) ↔ (s ≡ t)
eq_text_iff s t = (eq_text_sound s t, λ e. rw e (eq_text_refl t))

-- A common prefix does not matter to the comparison.
pub eq_text-append : (p s t : Text) → eq_text (p ++ s) (p ++ t) ≡ eq_text s t
unfolding eq_text
eq_text-append [] s t = refl
eq_text-append (x ∷ p) s t = ground (arith, eq_text-append p s t)

sample : text "aé成" ≡ 0x61 ∷ 0xc3 ∷ 0xa9 ∷ 0xe6 ∷ 0x88 ∷ 0x90 ∷ []
unfolding text
sample = refl
