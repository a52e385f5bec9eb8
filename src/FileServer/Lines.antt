-- ===== src/FileServer/Lines.antt =====
-- process_input of FTPconnect.cc: the lines of what was read in one call of recv.
use chatroom.Base.{
  ℕ, zero, suc, ◌≤◌, ◌<◌, ◌≡◌, refl, ap, Text, List, [], ◌∷◌, ◌++◌, none, some, arith, ◌>>=◌, skip,
  for_each, length, length-append, if◌then◌else◌,
}
use chatroom.FileServer.State.{Ftp, Do, FtpServices}
use chatroom.FileServer.Session.{
  cut_line, is_empty, new_command, handle_command, process_lines, process_input,
}

-- Some lines, each with its end, and what follows the last of them.
abbrev pub with_ends : List Text → Text → Text
with_ends [] rest = rest
with_ends (line ∷ lines) rest = line ++ (b'\r' ∷ b'\n' ∷ with_ends lines rest)

-- No line has an end within.
abbrev pub AllLines : List Text → Type 0
AllLines [] = Unit
AllLines (line ∷ lines) = (cut_line line ≡ none) × AllLines lines

cut_line-end :
    (line rest : Text)
    → cut_line line ≡ none
    → cut_line (line ++ (b'\r' ∷ b'\n' ∷ rest)) ≡ some (line, rest)
unfolding cut_line
cut_line-end [] rest h = refl
cut_line-end (c ∷ []) rest h = ground arith
cut_line-end (c ∷ e ∷ line) rest h = ground (arith, cut_line-end (e ∷ line) rest)

lines-le-length : (lines : List Text) (rest : Text) → length lines ≤ length (with_ends lines rest)
lines-le-length [] rest = omega arith
lines-le-length (line ∷ lines) rest =
    omega
      (arith, lines-le-length lines rest, length-append line (b'\r' ∷ b'\n' ∷ with_ends lines rest))

module _ {Db : Type 0} ⦃s : FtpServices Db⦄ where
  -- One round of the loop: an empty line is passed over.
  abbrev pub handle_line : Text → Do Db (Unit {0})
  handle_line line = if is_empty line then skip else handle_command line

  process_lines_lem :
      (fuel : ℕ) (lines : List Text) (rest : Text)
      → AllLines lines
      → cut_line rest ≡ none
      → length lines < fuel
      → process_lines fuel (with_ends lines rest) ≡ for_each lines handle_line
  unfolding process_lines for_each
  process_lines_lem zero lines rest h e f = absurd (omega arith)
  process_lines_lem (suc fuel) [] rest h e f = rw (e, process_lines) refl
  process_lines_lem (suc fuel) (line ∷ lines) rest h e f =
      rw (cut_line-end line (with_ends lines rest) h.0, process_lines)
        (ap (λ m. handle_line line >>= λ _. m)
          (process_lines_lem fuel lines rest h.1 e (omega arith)))

  -- Of bytes that consist of lines with their ends, and of a rest without an end, process_input
  -- handles the lines one by one as a loop over them does, passing over the empty ones, and the
  -- rest has no effect.
  pub process_input-lines :
      (lines : List Text) (rest : Text) (w : Ftp Db)
      → AllLines lines
      → cut_line rest ≡ none
      → process_input (with_ends lines rest) w ≡ (new_command >>= λ _. for_each lines handle_line) w
  unfolding process_input
  process_input-lines lines rest w h e =
      ap (λ m. (new_command >>= λ _. m) w)
        (process_lines_lem (suc (length (with_ends lines rest))) lines rest h e
          (omega (arith, lines-le-length lines rest)))
