-- ===== src/FileServer/Session.antt =====
-- FTPconnect.cc: the commands of a client, line by line.
use chatroom.Base.{
  ℕ, zero, suc, Text, text, Bool, true, false, List, [], ◌∷◌, ◌||◌, Option, none, some,
  if◌then◌else◌, ◌==◌, ◌>>=◌, ◌>>◌, pure, skip, fault, length, drop, not, starts_with,
}
use chatroom.FileServer.State.{
  Do, FtpServices, DataConn, set_data_conn, set_pasv, is_pasv, send_response,
}
use chatroom.FileServer.Data.{send_passive, accept_data, close_data}
use chatroom.FileServer.Command.{cmd_execute}

-- line.find("\r\n"): the line before it and what is behind it
unfoldable pub cut_line : Text → Option (Text × Text)
unfolding text starts_with
cut_line [] = none
cut_line (c ∷ s) =
    let later = cut_line s in
    if starts_with (text "\r\n") (c ∷ s)
    then some ([], drop 1 s)
    else elim later [ none ↦ none | some (l, rest) ↦ some (c ∷ l, rest) ]

abbrev pub is_empty : Text → Bool
is_empty [] = true
is_empty (c ∷ s) = false

unfoldable pub contains_fd : ℕ → List ℕ → Bool
contains_fd fd [] = false
contains_fd fd (j ∷ js) = j == fd || contains_fd fd js

-- The fields of a new Dataconnect are unset until send_passive and accept_data write them.
unfoldable pub null_data : DataConn
null_data = record { listen_pasv = 0; data_fd = 0 }

module _ {Db : Type 0} where
  -- comds[control_fd] = std::make_shared<command>()
  unfoldable pub new_command : Do Db (Unit {0})
  new_command w =
      some (tt, record w { conn = record (w.conn) { comds = w.conn.control_fd ∷ w.conn.comds } })

  -- comds.find(control_fd)
  unfoldable pub has_command : Do Db Bool
  has_command w = some (contains_fd w.conn.control_fd w.conn.comds, w)

  -- if(data_conn) { data_conn->Close(); ... }
  unfoldable pub drop_data : Do Db (Unit {0})
  drop_data w = elim w.conn.data_conn [
    | none ↦ some (tt, w)
    | some d ↦ (do close_data; set_data_conn none) w
  ]

module _ {Db : Type 0} ⦃s : FtpServices Db⦄ where
  unfoldable pub set_pasv_conn : Do Db Bool
  unfolding drop_data null_data
  set_pasv_conn = do drop_data; set_data_conn (some null_data); send_passive; accept_data; pure true

  -- if(_pasv) { ... } if(!_pasv) ...
  unfoldable pub with_data : Text → Do Db (Unit {0})
  unfolding text
  with_data cmd_line = do
    pasv ← is_pasv
    if pasv
        then (do cmd_execute cmd_line; set_data_conn none)
        else send_response (text "425 Can't open data connection.")

  unfoldable pub handle_command : Text → Do Db (Unit {0})
  unfolding text starts_with with_data
  handle_command cmd_line = do
    there ← has_command
    if not there
        then pure tt
        else if starts_with (text "PASV") cmd_line
        then (do b ← set_pasv_conn; set_pasv b)
        else if starts_with (text "QUIT") cmd_line
        then cmd_execute cmd_line
        else with_data cmd_line

  -- The loop over the lines that are complete; the fuel is a round for each.
  unfoldable pub process_lines : ℕ → Text → Do Db (Unit {0})
  unfolding cut_line
  process_lines zero line = fault
  process_lines (suc fuel) line = elim (cut_line line) [
    | none ↦ pure tt
    | some (cmd_line, rest) ↦ (do
      if is_empty cmd_line then skip else handle_command cmd_line
      process_lines fuel rest)
  ]

  unfoldable pub process_input : Text → Do Db (Unit {0})
  unfolding process_lines
  process_input line = do new_command; process_lines (suc (length line)) line
