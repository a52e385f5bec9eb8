-- ===== src/FileServer/Faults.antt =====
-- FTPconnect.cc: a second command after one PASV.
use chatroom.Base.{
  starts_with, ◌≡◌, refl, sym, ◌∙◌, ◌++◌, Text, text, eq_text, true, false, none, some, arith,
  ◌>>=◌, then_step, fault_here, fault_step, bind_inv, Option-cases, inl, inr,
}
use chatroom.FileServer.State.{Ftp, FtpServices, data_conn, set_data_conn, is_pasv}
use chatroom.FileServer.Command.{run_command, stor, retr, cmd_execute, is_space}
use chatroom.FileServer.Session.{handle_command, has_command, contains_fd}
use chatroom.FileServer.Words.{is_word, transfer_line, cmd_execute-transfer_line}
use chatroom.FileServer.Rules.{pasv_lem, command_lem, data_conn_null}
use chatroom.FileServer.Keeps.Commands.{Keeps-handle_command}

-- A command for a transfer.
pub data Transfer : Type 0 where
  upload download : Transfer

abbrev pub name_of : Transfer → Text
unfolding text
name_of Transfer.upload = text "STOR"
name_of Transfer.download = text "RETR"

starts_apart :
    (t : Transfer) (rest : Text)
    → (starts_with (text "PASV") (name_of t ++ rest) ≡ false)
      × (starts_with (text "QUIT") (name_of t ++ rest) ≡ false)
unfolding starts_with text
starts_apart Transfer.upload rest = (refl, refl)
starts_apart Transfer.download rest = (refl, refl)

name_of-is_word : (t : Transfer) → is_word (name_of t) ≡ true
unfolding is_space text
name_of-is_word Transfer.upload = refl
name_of-is_word Transfer.download = refl

module _ {Db : Type 0} ⦃s : FtpServices Db⦄ where
  set_none :
      (v w : Ftp Db) (u : Unit {0}) → set_data_conn none v ≡ some (u, w) → w.conn.data_conn ≡ none
  unfolding set_data_conn
  set_none v w u h = ground arith

  module _ (line : Text) (w : Ftp Db) (command : contains_fd w.conn.control_fd w.conn.comds ≡ true)
      (passive : w.conn.pasv ≡ true) (not_pasv : starts_with (text "PASV") line ≡ false)
      (not_quit : starts_with (text "QUIT") line ≡ false) where
    executed : handle_command line w ≡ (cmd_execute line >>= λ _. set_data_conn none) w
    unfolding handle_command
    executed =
        then_step has_command _ (command_lem w command)
        ∙ rw (not_pasv, not_quit) (then_step is_pasv _ (pasv_lem w passive))

    deleted :
        (v : Ftp Db) (u : Unit {0}) → handle_command line w ≡ some (u, v) → v.conn.data_conn ≡ none
    deleted v u h =
        let (a, v1, first, second) =
          bind_inv (cmd_execute line) (λ _. set_data_conn none) w (sym executed ∙ h) in
        set_none v1 v u second

  run_null :
      (t : Transfer) (path from_name to_name : Text) (w : Ftp Db)
      → w.conn.data_conn ≡ none
      → run_command (name_of t) path from_name to_name w ≡ none
  unfolding run_command eq_text text stor retr
  run_null Transfer.upload path from_name to_name w h = fault_here data_conn _ (data_conn_null w h)
  run_null Transfer.download path from_name to_name w h =
      fault_here data_conn _ (data_conn_null w h)

  module _ (t : Transfer) (path from_name to_name : Text) (path_word : is_word path ≡ true)
      (from_word : is_word from_name ≡ true) (to_word : is_word to_name ≡ true) where
    null_lem :
        (w : Ftp Db)
        → contains_fd w.conn.control_fd w.conn.comds ≡ true
        → w.conn.pasv ≡ true
        → w.conn.data_conn ≡ none
        → handle_command (transfer_line (name_of t) path from_name to_name) w ≡ none
    null_lem w command passive null =
        let apart = starts_apart t _ in
        executed (transfer_line (name_of t) path from_name to_name) w command passive apart.0
          apart.1
        ∙ fault_here _ _ (
            cmd_execute-transfer_line (name_of t) path from_name to_name w (name_of-is_word t)
              path_word from_word to_word
            ∙ run_null t path from_name to_name w null)

    -- After PASV, any command but PASV and QUIT and then a STOR or RETR of three words without
    -- a space is undefined behaviour, whatever the first command did: the data connection was
    -- deleted, and it is still taken to be there.
    pub second_transfer_undefined :
        (first : Text) (w : Ftp Db)
        → contains_fd w.conn.control_fd w.conn.comds ≡ true
        → w.conn.pasv ≡ true
        → starts_with (text "PASV") first ≡ false
        → starts_with (text "QUIT") first ≡ false
        → (handle_command first >>= λ _.
              handle_command (transfer_line (name_of t) path from_name to_name))
            w
          ≡ none
    second_transfer_undefined first w command passive not_pasv not_quit =
        elim (Option-cases (handle_command first w)) [
          | inl faulty ↦ fault_here (handle_command first) _ faulty
          | inr ((u, v), runs) ↦
              let same = (Keeps-handle_command first).run w v u runs in
              fault_step (handle_command first) _ u v runs (
                null_lem v (same.command command) (same.passive passive)
                  (deleted first w command passive not_pasv not_quit v u runs))
        ]
