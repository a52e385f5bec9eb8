-- ===== src/FileServer/Upload.antt =====
-- STOR as the client sends it (FTPcommand.cc, Dataconnect.cc: recive_file).
use chatroom.Base.{
  Returns-mono, starts_with, ◌≡◌, refl, ap, ◌∙◌, Text, text, eq_text, true, false, List, [], ◌∷◌,
  ◌++◌, none, some, text_eq, assign, eq_text_refl, Returns, bind_step, bind_bind, bind_pure, done,
}
use chatroom.Redis.Documented.{Documented, Kind, lists, contains, with_items}
use chatroom.RedisClient.Kinded.{Kinded}
use chatroom.RedisClient.Kinded.Files.{names_key, set_file-Does}
use chatroom.FileServer.State.{
  Ftp, FtpServices, ftp_redis, DataConn, Recv, send_response, get_now_time, draw_random,
}
use chatroom.FileServer.Data.{file_path, file_creat, keep_file, recive_file, write_file}
use chatroom.FileServer.Sockets.{recv_loop}
use chatroom.FileServer.Sockets.Sending.{Arriving, received, recv_loop_lem}
use chatroom.FileServer.Command.{run_command, stor, is_space}
use chatroom.FileServer.Session.{handle_command}
use chatroom.FileServer.Words.{transfer_line}
use chatroom.FileServer.Queue.{waiting, contents, contents_new}
use chatroom.FileServer.Rules.{bind_redis, bind_data, bind_receive, bind_close}
use chatroom.FileServer.Transfer.{Transferring, handle_transfer, disconnected}

abbrev pub upload_begins : Text
unfolding text
upload_begins = text "150 Opening BINARY mode data connection for filename.txt."

abbrev pub upload_ends : Text
unfolding text
upload_ends = text "226 Transfer complete"

module _ {Db : Type 0} ⦃s : FtpServices Db⦄ (doc : Documented s.redis) (kind_of : Text → Kind)
    (w : Ftp Db) (d : DataConn) (path from_name to_name : Text)
    (ready : Transferring doc kind_of w d path from_name to_name) where
  open doc use {view}

  -- The path of the new file.
  abbrev pub new_path : Text
  new_path = file_path (s.seconds w.readings) from_name (s.random w.draws)

  abbrev pub names : Text
  names = names_key from_name to_name

  kept :
      {d1 : Db} (bytes : Text)
      → contains new_path ((view w.db).items names) ≡ false
      → view d1 ≡ with_items names ((view w.db).items names ++ new_path ∷ []) (view w.db)
      → contents (assign new_path bytes (assign new_path [] w.disk)) ((view d1).items names)
        ≡ waiting doc from_name to_name w ++ some bytes ∷ []
  kept bytes fresh v1 =
      ap (λ v. contents (assign new_path bytes (assign new_path [] w.disk)) (v.items names)) v1
      ∙ rw (eq_text_refl names) (contents_new new_path bytes w.disk ((view w.db).items names) fresh)

  -- What holds after STOR: the file is in the queue, and the rest is as it was.
  pub record Stored (script : List Recv) (w' : Ftp Db) : Type 0 where
    pub queued :
        waiting doc from_name to_name w'
        ≡ waiting doc from_name to_name w ++ some (received script) ∷ []
    pub closes : w'.closed ≡ (w.closed ++ d.data_fd ∷ []) ++ d.listen_pasv ∷ []
    pub answers :
        w'.responses
        ≡ (w.responses ++ (w.conn.control_fd, upload_begins) ∷ [])
          ++ (w.conn.control_fd, upload_ends) ∷ []
    pub kinded : Kinded doc kind_of w'.db
    pub sends : w'.sends ≡ w.sends
    pub data_sent : w'.data_sent ≡ w.data_sent

  stor_lem :
      (script rest : List Recv)
      → w.recvs ≡ script ++ Recv.closed ∷ rest
      → Arriving script
      → s.can_create new_path ≡ true
      → kind_of names ≡ lists
      → contains new_path ((view w.db).items names) ≡ false
      → Returns (stor from_name to_name) w (λ _ w'. Stored script w')
  unfolding stor recive_file file_creat keep_file get_now_time draw_random write_file send_response
  stor_lem script rest arrives arriving can kind fresh = bind_data _ ready.connected (
      bind_bind _ _ _ (
        bind_step get_now_time _ _ _ refl (
          bind_bind _ _ _ (
            bind_step draw_random _ _ _ refl (
              bind_bind _ _ _ (
                bind_redis doc _ _ (set_file-Does doc ready.kinded from_name to_name new_path kind)
                  (λ d1 v1 k1. rw can (
                    bind_bind _ _ _ (
                      bind_step (write_file new_path []) _ _ _ refl (
                        bind_pure _ _ (
                          bind_step (send_response _) _ _ _ refl (
                            bind_receive _
                              (ap recv_loop arrives ∙ recv_loop_lem script rest arriving)
                              (bind_step (write_file new_path _) _ _ _ refl (
                                bind_close _ ready.connected (
                                  done tt _ refl (record {
                                    queued = kept (received script) fresh v1;
                                    closes = refl;
                                    answers = refl;
                                    kinded = k1;
                                    sends = refl;
                                    data_sent = refl;
                                  }))))))))))))))))

  -- The data connection has no part in it.
  stays : (w' : Ftp Db) (script : List Recv) → Stored script w' → Stored script (disconnected w')
  stays w' script h = record {
    queued = h.queued;
    closes = h.closes;
    answers = h.answers;
    kinded = h.kinded;
    sends = h.sends;
    data_sent = h.data_sent;
  }

  pub upload_lem :
      (script rest : List Recv)
      → w.recvs ≡ script ++ Recv.closed ∷ rest
      → Arriving script
      → s.can_create new_path ≡ true
      → kind_of names ≡ lists
      → contains new_path ((view w.db).items names) ≡ false
      → Returns
          (handle_command (transfer_line (text "STOR") path from_name to_name))
          w
          (λ _ w'. Stored script w' × (w'.conn.data_conn ≡ none))
  unfolding run_command text starts_with eq_text is_space
  upload_lem script rest arrives arriving can kind fresh =
      handle_transfer doc kind_of w d path from_name to_name ready (text "STOR") refl refl refl
        (stor_lem script rest arrives arriving can kind fresh) (λ w' h. (stays w' script h, refl))

  -- On a connection whose data connection stands after PASV, where the line is what the client
  -- sends for STOR, its three words have no space, bytes arrive in any pieces until the other
  -- side closes the connection, the file can be created, and its path is not yet among the names
  -- that wait from the sender to the receiver, handle_command comes to an end. The contents that
  -- wait from the sender to the receiver are then those before and the bytes that arrived, whole
  -- and in order, at the end; the data connection is gone, its two sockets are closed, and the
  -- answers are 150 and 226.
  pub upload-enqueues :
      (script rest : List Recv)
      → w.recvs ≡ script ++ Recv.closed ∷ rest
      → Arriving script
      → s.can_create new_path ≡ true
      → kind_of names ≡ lists
      → contains new_path ((view w.db).items names) ≡ false
      → Returns (handle_command (transfer_line (text "STOR") path from_name to_name)) w (λ _ w'.
        (waiting doc from_name to_name w'
          ≡ waiting doc from_name to_name w ++ some (received script) ∷ [])
        × (w'.conn.data_conn ≡ none)
        × (w'.closed ≡ (w.closed ++ d.data_fd ∷ []) ++ d.listen_pasv ∷ [])
        × (w'.responses
            ≡ (w.responses ++ (w.conn.control_fd, upload_begins) ∷ [])
              ++ (w.conn.control_fd, upload_ends) ∷ []))
  upload-enqueues script rest arrives arriving can kind fresh =
      Returns-mono (upload_lem script rest arrives arriving can kind fresh)
        (λ _ w' h. (h.0.queued, h.1, h.0.closes, h.0.answers))
