-- ===== src/FileServer/Transfer.antt =====
-- A connection that is ready for STOR or RETR, and the way of such a line to its command
-- (FTPconnect.cc: handle_command).
use chatroom.Base.{
  starts_with, ◌≡◌, refl, ◌∙◌, Text, text, true, false, none, some, text_eq, Returns, bind_step,
  done,
}
use chatroom.Redis.Documented.{Documented, Kind}
use chatroom.RedisClient.Kinded.{Kinded}
use chatroom.FileServer.State.{Ftp, FtpServices, ftp_redis, DataConn, set_data_conn}
use chatroom.FileServer.Command.{run_command, cmd_execute}
use chatroom.FileServer.Session.{handle_command, contains_fd}
use chatroom.FileServer.Words.{is_word, transfer_line, cmd_execute-transfer_line}
use chatroom.FileServer.Rules.{bind_command, bind_pasv}

-- A connection that is ready for a transfer: PASV was accepted and `d` is the data connection.
pub record Transferring {Db : Type 0} ⦃s : FtpServices Db⦄ (doc : Documented s.redis)
    (kind_of : Text → Kind) (w : Ftp Db) (d : DataConn) (path from_name to_name : Text)
    : Type 0 where
  pub kinded : Kinded doc kind_of w.db
  pub connected : w.conn.data_conn ≡ some d
  pub passive : w.conn.pasv ≡ true
  pub command : contains_fd w.conn.control_fd w.conn.comds ≡ true
  pub path_word : is_word path ≡ true
  pub from_word : is_word from_name ≡ true
  pub to_word : is_word to_name ≡ true

-- The state after the data connection was deleted.
abbrev pub disconnected : {Db : Type 0} → Ftp Db → Ftp Db
disconnected w = record w { conn = record (w.conn) { data_conn = none } }

module _ {Db : Type 0} ⦃s : FtpServices Db⦄ (doc : Documented s.redis) (kind_of : Text → Kind)
    (w : Ftp Db) (d : DataConn) (path from_name to_name : Text)
    (ready : Transferring doc kind_of w d path from_name to_name) where
  open doc use {view}

  -- The way of a line to its command, and the deletion of the data connection after it.
  pub handle_transfer :
      (command : Text) {P Q : Unit {0} → Ftp Db → Type 0}
      → is_word command ≡ true
      → starts_with (text "PASV") (transfer_line command path from_name to_name) ≡ false
      → starts_with (text "QUIT") (transfer_line command path from_name to_name) ≡ false
      → Returns (run_command command path from_name to_name) w P
      → ((w' : Ftp Db) → P tt w' → Q tt (disconnected w'))
      → Returns (handle_command (transfer_line command path from_name to_name)) w Q
  unfolding handle_command set_data_conn
  handle_transfer command hc not_pasv not_quit h k = bind_command _ ready.command (
      rw (not_pasv, not_quit)
        (bind_pasv _ ready.passive (
          bind_step (cmd_execute (transfer_line command path from_name to_name)) _ h.result h.state
            (cmd_execute-transfer_line command path from_name to_name w hc ready.path_word
                ready.from_word ready.to_word
              ∙ h.runs)
            (done tt _ refl (k h.state h.holds)))))
