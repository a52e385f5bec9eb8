-- ===== src/FileServer/Download.antt =====
-- RETR as the client sends it (FTPcommand.cc, Dataconnect.cc: send_file).
use chatroom.Base.{
  starts_with, suc, ◌≤◌, ◌≡◌, refl, ap, ◌∙◌, Text, text, eq_text, List, [], ◌∷◌, ◌++◌, Option, none,
  some, text_eq, length, eq_text_refl, arith, Returns, bind_step, pure_step,
}
use chatroom.Redis.Documented.{Documented, Kind, lists, with_items, without_first}
use chatroom.RedisClient.Kinded.Files.{Scans, names_key, delete_file-Does, get_file-Does}
use chatroom.FileServer.State.{Ftp, FtpServices, ftp_redis, DataConn, bytes_to, send_response}
use chatroom.FileServer.Data.{send_file, send_named, hand_over}
use chatroom.FileServer.Sockets.Sending.{Taking, takes, send_blocks_lem}
use chatroom.FileServer.Command.{run_command, retr, is_space}
use chatroom.FileServer.Session.{handle_command}
use chatroom.FileServer.Words.{transfer_line, has_byte-word, word-no_spaces}
use chatroom.FileServer.Queue.{waiting, contents, oldest, bytes_to-append, bytes_to-pieces}
use chatroom.FileServer.Rules.{bind_redis, bind_data, bind_transmit, bind_read, bind_close}
use chatroom.FileServer.Transfer.{Transferring, handle_transfer}

abbrev pub download_begins : Text
unfolding text
download_begins = text "150 Opening BINARY mode data connection..."

abbrev pub download_ends : Text
unfolding text
download_ends = text "226 Transfer complete."

module _ {Db : Type 0} ⦃s : FtpServices Db⦄ (doc : Documented s.redis) (kind_of : Text → Kind)
    (w : Ftp Db) (d : DataConn) (path from_name to_name : Text)
    (ready : Transferring doc kind_of w d path from_name to_name) where
  open doc use {view}

  -- The one who downloads names himself first: the queue is the other's.
  abbrev pub names : Text
  names = names_key to_name from_name

  -- What is left of the queue when the oldest name is out of it.
  left_over :
      {d1 d2 : Db} (name : Text) (more : List Text) (rest : List (Option Text))
      → (view w.db).items names ≡ name ∷ more
      → without_first name ((view w.db).items names) ≡ more
      → contents w.disk more ≡ rest
      → view d1 ≡ view w.db
      → view d2 ≡ with_items names (without_first name ((view d1).items names)) (view d1)
      → contents w.disk ((view d2).items names) ≡ rest
  left_over name more rest is_name without left v1 v2 =
      ap (λ v. contents w.disk (v.items names)) v2
      ∙ rw (eq_text_refl names) (
          ap (λ v. contents w.disk (without_first name (v.items names))) v1
          ∙ ap (contents w.disk) without
          ∙ left)

  retr_lem :
      (scans : Scans doc s.scan_rounds) (bytes : Text) (rest : List (Option Text))
      → kind_of names ≡ lists
      → waiting doc to_name from_name w ≡ some bytes ∷ rest
      → Taking w.sends
      → length bytes ≤ takes w.sends
      → Returns (retr from_name to_name) w (λ _ w'.
        (waiting doc to_name from_name w' ≡ rest)
        × (bytes_to d.data_fd w'.data_sent ≡ bytes_to d.data_fd w.data_sent ++ bytes)
        × (w'.disk ≡ w.disk)
        × (w'.closed ≡ (w.closed ++ d.data_fd ∷ []) ++ d.listen_pasv ∷ [])
        × (w'.responses
            ≡ (w.responses ++ (w.conn.control_fd, download_begins) ∷ [])
              ++ (w.conn.control_fd, download_ends) ∷ []))
  unfolding retr send_file send_named hand_over send_response
  retr_lem scans bytes rest kind queue taking enough =
      let (name, more, is_name, there, left, without) =
        oldest w.disk ((view w.db).items names) queue in
      let (pieces, script, runs, pushed) =
        send_blocks_lem (suc (length bytes)) w.sends bytes (omega arith) taking enough in
      bind_data _ ready.connected (
        bind_redis doc _ _ (get_file-Does doc scans ready.kinded to_name from_name kind)
          (λ d1 v1 k1. rw is_name (
            bind_read name _ there (
              bind_step (send_response _) _ _ _ refl (
                bind_data _ ready.connected (
                  bind_transmit d.data_fd bytes _ runs (
                    bind_close _ ready.connected (
                      bind_step (send_response _) _ _ _ refl (
                        rw (has_byte-word from_name (word-no_spaces from_name ready.from_word)) (
                          bind_redis doc _ _ (delete_file-Does doc k1 to_name from_name name kind)
                            (λ d2 v2 k2. pure_step tt (
                              left_over name more rest is_name without left v1 v2,
                              bytes_to-append d.data_fd w.data_sent _
                                  ∙ ap (◌++◌ (bytes_to d.data_fd w.data_sent))
                                      (bytes_to-pieces d.data_fd pieces ∙ pushed.whole),
                              refl,
                              refl,
                              refl,
                            ))))))))))))

  -- On a connection whose data connection stands after PASV, where the line is what the client
  -- sends for RETR, its three words have no space, some bytes wait first from the other to the
  -- user, and send fails never and takes something often enough, handle_command comes to an end.
  -- The contents that wait are then those before without the first, the data socket has got
  -- exactly those bytes in order, the files are as before, the data connection is gone, its two
  -- sockets are closed, and the answers are 150 and 226.
  pub download-dequeues :
      (scans : Scans doc s.scan_rounds) (bytes : Text) (rest : List (Option Text))
      → kind_of names ≡ lists
      → waiting doc to_name from_name w ≡ some bytes ∷ rest
      → Taking w.sends
      → length bytes ≤ takes w.sends
      → Returns (handle_command (transfer_line (text "RETR") path from_name to_name)) w (λ _ w'.
        (waiting doc to_name from_name w' ≡ rest)
        × (bytes_to d.data_fd w'.data_sent ≡ bytes_to d.data_fd w.data_sent ++ bytes)
        × (w'.disk ≡ w.disk)
        × (w'.conn.data_conn ≡ none)
        × (w'.closed ≡ (w.closed ++ d.data_fd ∷ []) ++ d.listen_pasv ∷ [])
        × (w'.responses
            ≡ (w.responses ++ (w.conn.control_fd, download_begins) ∷ [])
              ++ (w.conn.control_fd, download_ends) ∷ []))
  unfolding run_command text starts_with eq_text is_space
  download-dequeues scans bytes rest kind queue taking enough =
      handle_transfer doc kind_of w d path from_name to_name ready (text "RETR") refl refl refl
        (retr_lem scans bytes rest kind queue taking enough)
        (λ w' h. (h.0, h.1, h.2, refl, h.3, h.4))
