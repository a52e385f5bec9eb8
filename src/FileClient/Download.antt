-- ===== src/FileClient/Download.antt =====
-- getFile of FTP_client.cc against the answers that the file server (Dataconnect.cc) writes.
use chatroom.Base.{
  ℕ, suc, ◌<◌, ◌≡◌, refl, ap, ◌∙◌, Text, text, true, List, [], ◌∷◌, ◌++◌, Option, some, lookup,
  assign, lookup-assign, eq_text_refl, text_eq, starts_with, Returns, then_step, bind_step,
  bind_after, bind_bind, done, append_assoc,
}
use chatroom.FileServer.State.{Recv}
use chatroom.FileServer.Data.{passive_reply}
use chatroom.FileServer.Sockets.Sending.{received}
use chatroom.FileServer.Words.{transfer_line}
use chatroom.FileServer.Download.{download_begins, download_ends}
use chatroom.FileClient.Address.{dotted}
use chatroom.FileClient.State.{
  FtpClient, FileServices, c_text, send_line, recive, get_arr, get_task, show, write_local,
}
use chatroom.FileClient.Transfer.{
  fetch_loop, fetch, file_creat, retr, download_ready, complete, finish, enter_passive,
  download_file, get_file,
}
use chatroom.FileClient.Upload.{IsAnswer, recive_lem, enter_passive_lem, pasv, quits}

-- Bytes arrive with every call: the socket blocks.
abbrev pub AllArrive : List Recv → Type 0
AllArrive [] = Unit
AllArrive (Recv.arrived bytes ∷ rest) = AllArrive rest
AllArrive (Recv.closed ∷ rest) = ⊥
AllArrive (Recv.would_block ∷ rest) = ⊥
AllArrive (Recv.failed ∷ rest) = ⊥

fetch_loop_lem :
    (script rest : List Recv)
    → AllArrive script
    → fetch_loop (script ++ Recv.closed ∷ rest) ≡ some (received script, rest)
unfolding fetch_loop
fetch_loop_lem [] rest h = refl
fetch_loop_lem (Recv.arrived bytes ∷ script) rest h = rw (fetch_loop_lem script rest h) refl
fetch_loop_lem (Recv.closed ∷ script) rest h = absurd h
fetch_loop_lem (Recv.would_block ∷ script) rest h = absurd h
fetch_loop_lem (Recv.failed ∷ script) rest h = absurd h

fetch_lem :
    (script rest : List Recv) (w : FtpClient)
    → w.recvs ≡ script ++ Recv.closed ∷ rest
    → AllArrive script
    → fetch w ≡ some (received script, record w { recvs = rest })
unfolding fetch
fetch_lem script rest w e h = rw (e, fetch_loop_lem script rest h, fetch) refl

ends-IsAnswer : IsAnswer download_ends
unfolding c_text text
ends-IsAnswer = record { plain = refl; short = refl }

begins-IsAnswer : IsAnswer download_begins
unfolding c_text text
begins-IsAnswer = record { plain = refl; short = refl }

abbrev pub downloaded : Text
unfolding text
downloaded = text "\u{1b}[1;32m文件已下载\u{1b}[0m"

finish_lem :
    (w : FtpClient) (rest : List (Option Text))
    → w.answers ≡ some download_ends ∷ rest
    → finish downloaded w
      ≡ some (
        tt,
        record w { answers = rest; arr = download_ends; screen = w.screen ++ downloaded ∷ [] },
      )
unfolding finish get_arr show complete text starts_with
finish_lem w rest answers =
    then_step recive _ (recive_lem download_ends rest w ends-IsAnswer answers)
    ∙ then_step get_arr _ refl

ready_lem : (arr : Text) → arr ≡ download_begins → starts_with download_ready arr ≡ true
unfolding download_ready text starts_with
ready_lem arr begins = ap (starts_with download_ready) begins

module _ ⦃s : FileServices⦄ where
  -- The path under which a file is kept: the time, the sender and the file's name.
  abbrev pub local_path : FtpClient → Text
  unfolding text
  local_path w =
      s.directory
      ++ (text "/"
          ++ (s.local_time w.readings
              ++ (text "_" ++ (w.task.to_name ++ (text "_" ++ w.task.file_name)))))

  creat_lem :
      (w : FtpClient)
      → s.can_create (local_path w) ≡ true
      → file_creat w ≡ some (some (local_path w), record w { readings = suc w.readings })
  unfolding file_creat
  creat_lem w e = rw e refl

  kept :
      (path bytes : Text) (disk : List (Text × Text))
      → lookup path (assign path bytes disk) ≡ some bytes
  kept path bytes disk = lookup-assign path path bytes disk ∙ rw (eq_text_refl path) refl

  module _ (w : FtpClient) (answers_left : List (Option Text)) (script rest : List Recv) where
    download_file_lem :
        w.arr ≡ download_begins
        → w.answers ≡ some download_ends ∷ answers_left
        → s.can_create (local_path w) ≡ true
        → w.recvs ≡ script ++ Recv.closed ∷ rest
        → AllArrive script
        → Returns download_file w (λ _ w'.
          (w'.said ≡ w.said)
          × (w'.link ≡ w.link)
          × (lookup (local_path w) w'.disk ≡ some (received script)))
    unfolding download_file retr get_arr get_task show write_local
    download_file_lem begins answers can arrives arriving = bind_step get_arr _ _ _ refl (
        rw (ready_lem w.arr begins) (
          bind_bind file_creat _ _ (
            bind_step file_creat _ _ _ (creat_lem w can) (
              bind_bind get_task _ _ (
                bind_step get_task _ _ _ refl (
                  bind_bind (show _) _ _ (
                    bind_step (show _) _ _ _ refl (
                      bind_bind (show _) _ _ (
                        bind_step (show _) _ _ _ refl (
                          bind_bind fetch _ _ (
                            bind_step fetch _ _ _ (fetch_lem script rest _ arrives arriving) (
                              bind_step (write_local (local_path w) (received script)) _ _ _ refl (
                                done tt _ (finish_lem _ answers_left answers)
                                  (refl, refl, kept _ (received script) w.disk))))))))))))))

  module _ (w : FtpClient) (ip : ℕ × ℕ × ℕ × ℕ) (port : ℕ) (answers_left : List (Option Text))
      (script rest : List Recv) where
    abbrev pub download_line : Text
    unfolding text
    download_line =
        transfer_line (text "RETR") w.task.path w.task.from_name w.task.to_name ++ text "\r\n"

    -- Where the answers that the client will get are those that the file server writes for
    -- PASV, of an address and a port below 65536, and for RETR, the first has no zero and fits
    -- in the buffer, the new file can be created, and bytes arrive in any pieces until the
    -- server closes the connection, getFile comes to an end. It has said PASV, the line of
    -- RETR and QUIT in this order, has connected to that address and port, and the new file
    -- holds exactly the bytes that arrived.
    pub get_file-passive_reply :
        w.answers
          ≡ some (passive_reply ip port) ∷ some download_begins ∷ some download_ends ∷ answers_left
        → IsAnswer (passive_reply ip port)
        → port < 65536
        → s.can_create (local_path w) ≡ true
        → w.recvs ≡ script ++ Recv.closed ∷ rest
        → AllArrive script
        → Returns get_file w (λ _ w'.
          (w'.said ≡ w.said ++ pasv ∷ download_line ∷ quits ∷ [])
          × (w'.link ≡ some (dotted ip, port))
          × (lookup (local_path w) w'.disk ≡ some (received script)))
    unfolding get_file send_line get_task show
    get_file-passive_reply answers fits small can arrives arriving =
        bind_step enter_passive _ _ _
          (enter_passive_lem w ip port (some download_begins ∷ some download_ends ∷ answers_left)
            answers fits small)
          (bind_step get_task _ _ _ refl (
            bind_step (send_line download_line) _ _ _ refl (
              bind_step (show download_line) _ _ _ refl (
                bind_step recive _ _ _
                  (recive_lem download_begins (some download_ends ∷ answers_left) _ begins-IsAnswer
                    refl)
                  (bind_after download_file _ _
                    (download_file_lem _ answers_left script rest refl refl can arrives arriving)
                    (λ _ w' h.
                      done tt _ refl
                        (ap (λ l. l ++ quits ∷ []) h.0 ∙ simp append_assoc, h.1, h.2)))))))
