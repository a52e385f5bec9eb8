-- ===== src/FileServer/Words.antt =====
-- How the file server takes apart the lines that the client sends (src/Client/UserFile/FTP_client.cc:
-- "STOR " + file_path + " " + _from_name + " " + _to_name).
use chatroom.Base.{ℕ, ◌≡◌, refl, ap, ◌∙◌, Text, Bool, true, false, ◌∷◌, [], ◌++◌, ◌&&◌, not, arith}
use chatroom.FileServer.Data.{has_byte}
use chatroom.FileServer.Command.{
  is_space, skip_spaces, word_of, after_word, read_word, cmd_execute, run_command,
}
use chatroom.FileServer.State.{FtpServices, Ftp}

-- Whether a text has no white space,
abbrev pub no_spaces : Text → Bool
no_spaces [] = true
no_spaces (c ∷ s) = not (is_space c) && no_spaces s

-- and is not empty.
abbrev pub is_word : Text → Bool
is_word [] = false
is_word (c ∷ s) = no_spaces (c ∷ s)

-- What the client sends, without the end of the line.
abbrev pub transfer_line : Text → Text → Text → Text → Text
transfer_line command path from_name to_name =
    command ++ (b' ' ∷ (path ++ (b' ' ∷ (from_name ++ (b' ' ∷ to_name)))))

pub word-no_spaces : (s : Text) → is_word s ≡ true → no_spaces s ≡ true
word-no_spaces [] h = refl
word-no_spaces (c ∷ s) h = h

word_of-append : (w rest : Text) → no_spaces w ≡ true → word_of (w ++ b' ' ∷ rest) ≡ w
unfolding word_of is_space
word_of-append [] rest h = refl
word_of-append (c ∷ w) rest h = ground (arith, word_of-append w rest)

after_word-append :
    (w rest : Text) → no_spaces w ≡ true → after_word (w ++ b' ' ∷ rest) ≡ b' ' ∷ rest
unfolding after_word is_space
after_word-append [] rest h = refl
after_word-append (c ∷ w) rest h = ground (arith, after_word-append w rest)

word_of_self : (w : Text) → no_spaces w ≡ true → word_of w ≡ w
unfolding word_of is_space
word_of_self [] h = refl
word_of_self (c ∷ w) h = ground (arith, word_of_self w)

skip_word : (c : ℕ) (s : Text) → is_space c ≡ false → skip_spaces (c ∷ s) ≡ c ∷ s
unfolding skip_spaces
skip_word c s h = ground arith

pub has_byte-word : (w : Text) → no_spaces w ≡ true → has_byte b' ' w ≡ false
unfolding has_byte is_space
has_byte-word [] h = refl
has_byte-word (c ∷ w) h = ground (arith, has_byte-word w)

read_first : (w rest : Text) → is_word w ≡ true → read_word (w ++ b' ' ∷ rest) ≡ (w, b' ' ∷ rest)
unfolding read_word
read_first [] rest h = absurd (cc)
read_first (c ∷ w) rest h =
    rw (skip_word c (w ++ b' ' ∷ rest) (ground arith))
      (λ i. (word_of-append (c ∷ w) rest h i, after_word-append (c ∷ w) rest h i))

skip_one : (s : Text) → read_word (b' ' ∷ s) ≡ read_word s
unfolding read_word skip_spaces is_space
skip_one s = refl

read_next :
    (w rest : Text) → is_word w ≡ true → read_word (b' ' ∷ (w ++ b' ' ∷ rest)) ≡ (w, b' ' ∷ rest)
read_next w rest h = skip_one (w ++ b' ' ∷ rest) ∙ read_first w rest h

last_word : (w : Text) → is_word w ≡ true → (read_word (b' ' ∷ w)).0 ≡ w
unfolding read_word
last_word [] h = absurd (cc)
last_word (c ∷ w) h =
    ap (λ p. p.0) (skip_one (c ∷ w)) ∙ rw (skip_word c w (ground arith)) (word_of_self (c ∷ w) h)

-- The four words of a line come back as they were sent, if they have no white space.
pub cmd_execute-transfer_line :
    {Db : Type 0} ⦃s : FtpServices Db⦄ (command path from_name to_name : Text) (w : Ftp Db)
    → is_word command ≡ true
    → is_word path ≡ true
    → is_word from_name ≡ true
    → is_word to_name ≡ true
    → cmd_execute (transfer_line command path from_name to_name) w
      ≡ run_command command path from_name to_name w
unfolding cmd_execute
cmd_execute-transfer_line command path from_name to_name w hc hp hf ht =
    rw
      (
        read_first command (path ++ (b' ' ∷ (from_name ++ (b' ' ∷ to_name)))) hc,
        read_next path (from_name ++ (b' ' ∷ to_name)) hp,
        read_next from_name to_name hf,
        last_word to_name ht,
      )
      refl
