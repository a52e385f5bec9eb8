-- ===== src/Client/Names.antt =====
-- chat_tools.cc: trim and split_dash, which take a group's title apart.
pub mod Splitting
use chatroom.Base.{
  ℕ, ◌+◌, Text, text, Bool, true, false, [], ◌∷◌, Option, none, some, if◌then◌else◌, ◌==◌, ◌||◌,
  take, drop, find_text,
}

abbrev pub is_blank : ℕ → Bool
is_blank c = c == b' ' || c == b'\t'

-- str.substr(str.find_first_not_of(" \t"))
unfoldable pub trim_start : Text → Text
trim_start [] = []
trim_start (c ∷ s) = let rest = trim_start s in if is_blank c then rest else c ∷ s

abbrev pub or_drop : ℕ → Text → Text
or_drop c [] = if is_blank c then [] else c ∷ []
or_drop c (d ∷ s) = c ∷ d ∷ s

-- up to str.find_last_not_of(" \t")
unfoldable pub trim_end : Text → Text
trim_end [] = []
trim_end (c ∷ s) = or_drop c (trim_end s)

unfoldable pub trim : Text → Text
unfolding trim_start trim_end
trim str = trim_end (trim_start str)

unfoldable pub split_dash : Text → Text × Text
unfolding text
split_dash str = elim (find_text (text "---") str) [
  | none ↦ (trim str, [])
  | some pos ↦ (trim (take pos str), trim (drop (pos + 3) str))
]
