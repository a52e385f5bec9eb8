-- ===== src/FileServer/Command.antt =====
-- FTPcommand.cc: a command line and the command that it names.
use chatroom.Base.{
  ℕ, Text, text, eq_text, Bool, [], ◌∷◌, ◌||◌, ◌&&◌, if◌then◌else◌, ◌==◌, leb, ◌>>=◌, ◌>>◌, pure,
}
use chatroom.FileServer.State.{Do, FtpServices, close_fd, data_conn}
use chatroom.FileServer.Data.{send_file, recive_file, control}
use chatroom.FileServer.Listing.{list}

-- std::isspace in the C locale
unfoldable pub is_space : ℕ → Bool
is_space c = c == b' ' || (leb 9 c && leb c 13)

unfoldable pub skip_spaces : Text → Text
skip_spaces [] = []
skip_spaces (c ∷ s) = let rest = skip_spaces s in if is_space c then rest else c ∷ s

unfoldable pub word_of : Text → Text
word_of [] = []
word_of (c ∷ s) = let rest = word_of s in if is_space c then [] else c ∷ rest

unfoldable pub after_word : Text → Text
after_word [] = []
after_word (c ∷ s) = let rest = after_word s in if is_space c then c ∷ s else rest

-- iss >> word: the word, and what is left of the stream. At its end the word is empty.
unfoldable pub read_word : Text → Text × Text
unfolding skip_spaces word_of after_word is_space
read_word iss = (word_of (skip_spaces iss), after_word (skip_spaces iss))

module _ {Db : Type 0} where
  -- FTPconnect::Close
  unfoldable pub quit : Do Db (Unit {0})
  quit = do fd ← control; close_fd fd

module _ {Db : Type 0} ⦃s : FtpServices Db⦄ where
  -- conn.data_conn-> through a null pointer is undefined.
  unfoldable pub retr : Text → Text → Do Db (Unit {0})
  retr from_name to_name = do data_conn; send_file from_name to_name

  unfoldable pub stor : Text → Text → Do Db (Unit {0})
  stor username to_name = do data_conn; recive_file username to_name

  -- The path of STOR and RETR is not used.
  unfoldable pub run_command : Text → Text → Text → Text → Do Db (Unit {0})
  unfolding text
  run_command cmd_t cmd_m from_name to_name =
      if eq_text cmd_t (text "STOR")
      then stor from_name to_name
      else if eq_text cmd_t (text "RETR")
      then retr from_name to_name
      else if eq_text cmd_t (text "LIST")
      then list cmd_m
      else if eq_text cmd_t (text "QUIT")
      then quit
      else pure tt

  unfoldable pub cmd_execute : Text → Do Db (Unit {0})
  cmd_execute cmd_line =
      let (cmd_t, iss1) = read_word cmd_line in
      let (cmd_m, iss2) = read_word iss1 in
      let (from_name, iss3) = read_word iss2 in
      let (to_name, iss4) = read_word iss3 in run_command cmd_t cmd_m from_name to_name
