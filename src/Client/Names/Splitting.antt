-- ===== src/Client/Names/Splitting.antt =====
-- The client takes apart the title that the server has made of a group's and its owner's name.
use chatroom.Base.{
  ℕ, suc, ◌+◌, ◌≡◌, refl, sym, ap, ◌∙◌, Text, text, Bool, true, false, [], ◌∷◌, ◌++◌, Option, none,
  some, not, take, drop, length, length-append, append_assoc, take-append, drop-append, find_text,
  find_next, starts_with, arith,
}
use chatroom.RedisClient.Groups.{group_title}
use chatroom.Client.Names.{is_blank, trim_start, trim_end, trim, split_dash}

-- Whether a text starts with a blank, and whether it ends with one.
abbrev pub starts_plain : Text → Bool
starts_plain [] = true
starts_plain (c ∷ s) = not (is_blank c)

abbrev pub ends_plain : Text → Bool
ends_plain [] = true
ends_plain (c ∷ []) = not (is_blank c)
ends_plain (c ∷ d ∷ s) = ends_plain (d ∷ s)

-- A name that has no blank at its ends.
abbrev pub IsTrimmed : Text → Type 0
IsTrimmed s = (starts_plain s ≡ true) × (ends_plain s ≡ true)

trim_start_plain : (s : Text) → starts_plain s ≡ true → trim_start s ≡ s
unfolding trim_start
trim_start_plain [] h = refl
trim_start_plain (c ∷ s) h = ground arith

trim_end_plain : (s : Text) → ends_plain s ≡ true → trim_end s ≡ s
unfolding trim_end
trim_end_plain [] h = refl
trim_end_plain (c ∷ []) h = ground arith
trim_end_plain (c ∷ d ∷ s) h = rw (trim_end_plain (d ∷ s) h, trim_end) refl

abbrev blanks : Text
blanks = b' ' ∷ b' ' ∷ b' ' ∷ []

-- Three blanks behind a name are cut off.
trim_end-blanks : (s : Text) → ends_plain s ≡ true → trim_end (s ++ blanks) ≡ s
unfolding trim_end text
trim_end-blanks [] h = refl
trim_end-blanks (c ∷ []) h = ground arith
trim_end-blanks (c ∷ d ∷ s) h = rw (trim_end-blanks (d ∷ s) h, trim_end) refl

trim_title : (g : Text) → IsTrimmed g → trim (g ++ blanks) ≡ g
unfolding trim trim_start text
trim_title [] h = refl
trim_title (c ∷ g) h =
    ap trim_end (trim_start_plain (c ∷ (g ++ blanks)) h.0) ∙ trim_end-blanks (c ∷ g) h.1

abbrev dashes : Text
dashes = b'-' ∷ b'-' ∷ b'-' ∷ []

-- What follows a group's name in its title.
abbrev behind : Text → Text
behind u = b' ' ∷ b' ' ∷ b' ' ∷ (dashes ++ u)

starts_with-dashes :
    (g u : Text) → starts_with dashes g ≡ false → starts_with dashes (g ++ behind u) ≡ false
unfolding starts_with
starts_with-dashes [] u h = refl
starts_with-dashes (a ∷ []) u h = ground arith
starts_with-dashes (a ∷ b ∷ []) u h = ground arith
starts_with-dashes (a ∷ b ∷ c ∷ g) u h = ground arith

find_here :
    (pattern s : Text) (c : ℕ)
    → starts_with pattern (c ∷ s) ≡ true
    → find_text pattern (c ∷ s) ≡ some 0
unfolding find_text
find_here pattern s c h = rw (h, find_text) refl

abbrev shift : Option ℕ → Option ℕ
shift none = none
shift (some i) = some (suc i)

-- A pattern that is not found does not start here, nor is it found behind.
not_found :
    (pattern s : Text) (c : ℕ)
    → find_text pattern (c ∷ s) ≡ none
    → (starts_with pattern (c ∷ s) ≡ false) × (find_text pattern s ≡ none)
unfolding find_text
not_found pattern s c h = ground arith

dashes_found : (u : Text) → find_text dashes (behind u) ≡ some 3
unfolding find_text starts_with
dashes_found u = refl

find_dashes :
    (g u : Text)
    → find_text dashes g ≡ none
    → find_text dashes (g ++ behind u) ≡ some (length g + 3)
find_dashes [] u h = dashes_found u
find_dashes (c ∷ g) u h =
    let (here, later) = not_found dashes g c h in
    find_next dashes (g ++ behind u) c (starts_with-dashes (c ∷ g) u here)
    ∙ rw (find_dashes g u later) (ap (λ (i : ℕ). some i) (omega arith))

take_title : (g u : Text) → take (length g + 3) (g ++ behind u) ≡ g ++ blanks
take_title g u =
    let e : length g + 3 ≡ length (g ++ blanks) = omega (arith, length-append g blanks) in
    rw e (
      ap (take (length (g ++ blanks))) (sym (append_assoc g blanks (dashes ++ u)))
      ∙ take-append (g ++ blanks) (dashes ++ u))

drop_title : (g u : Text) → drop (length g + 3 + 3) (g ++ behind u) ≡ u
drop_title g u =
    let front : Text = g ++ (blanks ++ dashes) in
    let e : length g + 3 + 3 ≡ length front = omega (arith, length-append g (blanks ++ dashes)) in
    rw e
      (ap (drop (length front)) (sym (append_assoc g (blanks ++ dashes) u)) ∙ drop-append front u)

trimmed : (u : Text) → IsTrimmed u → trim u ≡ u
unfolding trim
trimmed u h = ap trim_end (trim_start_plain u h.0) ∙ trim_end_plain u h.1

-- From a group's title the client gets back the group's and the owner's name, where neither has a
-- blank at an end and the group's has no three dashes.
pub split_dash-group_title :
    (g u : Text)
    → find_text (text "---") g ≡ none
    → IsTrimmed g
    → IsTrimmed u
    → split_dash (group_title g u) ≡ (g, u)
unfolding split_dash group_title text
split_dash-group_title g u h tg tu =
    rw (find_dashes g u h, take_title g u, drop_title g u, split_dash)
      (λ i. (trim_title g tg i, trimmed u tu i))
