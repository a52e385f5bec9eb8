-- ===== src/FileServer/Delivery.antt =====
-- STOR on one connection and then RETR on another.
use chatroom.Base.{
  ◌≡◌, refl, ap, ◌∙◌, Text, text, true, false, List, [], ◌∷◌, ◌++◌, some, length, ◌≤◌, Returns,
  Returns-mono, bind_bind, bind_step, ◌>>◌,
}
use chatroom.Redis.Documented.{Documented, Kind, lists, contains}
use chatroom.RedisClient.Kinded.{Kinded}
use chatroom.RedisClient.Kinded.Files.{Scans, names_key}
use chatroom.FileServer.State.{Ftp, FtpConnect, FtpServices, DataConn, Recv, bytes_to}
use chatroom.FileServer.Sockets.Sending.{Arriving, received, Taking, takes}
use chatroom.FileServer.Session.{handle_command}
use chatroom.FileServer.Reactor.{attend}
use chatroom.FileServer.Words.{transfer_line}
use chatroom.FileServer.Queue.{waiting, contents}
use chatroom.FileServer.Transfer.{Transferring}
use chatroom.FileServer.Upload.{upload_lem, new_path}
use chatroom.FileServer.Download.{download-dequeues}

-- A connection stays ready for a transfer whatever the database holds.
moved :
    {Db : Type 0} ⦃s : FtpServices Db⦄ (doc : Documented s.redis) (kind_of : Text → Kind)
    (w w' : Ftp Db) (c : FtpConnect) (d : DataConn) (path from_name to_name : Text)
    → Transferring doc kind_of (record w { conn = c }) d path from_name to_name
    → Kinded doc kind_of w'.db
    → Transferring doc kind_of (record w' { conn = c }) d path from_name to_name
moved doc kind_of w w' c d path from_name to_name h k = record {
  kinded = k;
  connected = h.connected;
  passive = h.passive;
  command = h.command;
  path_word = h.path_word;
  from_word = h.from_word;
  to_word = h.to_word;
}

-- Where nothing waits, no path is in the list.
none_waits :
    (disk : List (Text × Text)) (names : List Text) (p : Text)
    → contents disk names ≡ []
    → contains p names ≡ false
none_waits disk [] p h = refl
none_waits disk (name ∷ names) p h = absurd (cc)

module _ {Db : Type 0} ⦃s : FtpServices Db⦄ (doc : Documented s.redis) (kind_of : Text → Kind)
    (w : Ftp Db) (d : DataConn) (path sender receiver : Text)
    (ready : Transferring doc kind_of w d path sender receiver) (c : FtpConnect) (e : DataConn)
    (place : Text)
    (ready_too : Transferring doc kind_of (record w { conn = c }) e place receiver sender) where
  open doc use {view}

  -- Where nothing waits from the sender to the receiver, both have a data connection after PASV,
  -- bytes arrive from the sender in any pieces until he closes the connection, the file can be
  -- created, and send fails never and takes something often enough, the sender's STOR and then
  -- the receiver's RETR on his own connection, in the words that the client sends, both come to
  -- an end, the receiver's data socket has got exactly the bytes that arrived, in order, and
  -- nothing waits.
  pub upload-delivers :
      (scans : Scans doc s.scan_rounds) (script rest : List Recv)
      → waiting doc sender receiver w ≡ []
      → w.recvs ≡ script ++ Recv.closed ∷ rest
      → Arriving script
      → s.can_create (new_path doc kind_of w d path sender receiver ready) ≡ true
      → kind_of (names_key sender receiver) ≡ lists
      → Taking w.sends
      → length (received script) ≤ takes w.sends
      → Returns
          ((handle_command (transfer_line (text "STOR") path sender receiver) >> attend c)
            >> handle_command (transfer_line (text "RETR") place receiver sender))
          w
          (λ _ w'.
            (bytes_to e.data_fd w'.data_sent ≡ bytes_to e.data_fd w.data_sent ++ received script)
            × (waiting doc sender receiver w' ≡ []))
  unfolding attend
  upload-delivers scans script rest empty arrives arriving can kind taking enough =
      let h =
        upload_lem doc kind_of w d path sender receiver ready script rest arrives arriving can kind
          (none_waits w.disk _ _ empty) in
      bind_bind (handle_command (transfer_line (text "STOR") path sender receiver)) _ _ (
        bind_step (handle_command _) _ h.result h.state h.runs (
          bind_step (attend c) _ _ _ refl (
            Returns-mono
              (download-dequeues doc kind_of (record (h.state) { conn = c }) e place receiver sender
                (moved doc kind_of w h.state c e place receiver sender ready_too h.holds.0.kinded)
                scans (received script) [] kind
                (h.holds.0.queued ∙ ap (λ q. q ++ some (received script) ∷ []) empty)
                (rw h.holds.0.sends taking) (rw h.holds.0.sends enough))
              (λ _ w' k. (
                k.1 ∙ ap (λ l. bytes_to e.data_fd l ++ received script) h.holds.0.data_sent,
                k.0,
              )))))
