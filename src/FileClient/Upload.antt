-- ===== src/FileClient/Upload.antt =====
-- sendFile of FTP_client.cc against the answers that the file server (Dataconnect.cc) writes.
use chatroom.Base.{
  ℕ, zero, suc, ◌≤◌, ◌<◌, ◌≡◌, refl, ap, ◌∙◌, Text, text, Bool, true, false, List, [], ◌∷◌, ◌++◌,
  Option, some, lookup, text_eq, length, ltb, length-drop, take, drop, arith, starts_with, Returns,
  then_step, bind_step, bind_after, bind_bind, done, skip, pure, append_assoc,
}
use chatroom.FileServer.Data.{passive_reply}
use chatroom.FileServer.Sockets.Sending.{concat, concat-append, take-drop}
use chatroom.FileServer.Words.{transfer_line}
use chatroom.FileServer.Upload.{upload_begins, upload_ends}
use chatroom.FileClient.Address.{dotted, open_passive_mode-passive_reply}
use chatroom.FileClient.Passive.{open_passive_mode}
use chatroom.FileClient.State.{
  FtpClient, c_text, send_line, recive, connect_link, get_arr, get_task, show, read_local,
}
use chatroom.FileClient.Transfer.{
  stor_loop, push_file, stor, upload_ready, complete, finish, enter_passive, upload_file, send_file,
}

-- No call of send fails.
abbrev pub AllSent : List Bool → Type 0
AllSent [] = Unit
AllSent (b ∷ bs) = (b ≡ true) × AllSent bs

-- The pieces that are sent make up the file.
stor_loop_lem :
    (fuel : ℕ) (script : List Bool) (bytes : Text)
    → AllSent script
    → length bytes ≤ length script
    → length bytes < fuel
    → (pieces : List Text) × (left : List Bool) × (stor_loop fuel script bytes
        ≡ some (pieces, left, true))
      × (concat pieces ≡ bytes)
unfolding stor_loop
stor_loop_lem zero script bytes h enough f = absurd (omega arith)
stor_loop_lem (suc fuel) script [] h enough f = ([], script, refl, refl)
stor_loop_lem (suc fuel) [] (x ∷ xs) h enough f = absurd (omega arith)
stor_loop_lem (suc fuel) (false ∷ script) (x ∷ xs) h enough f = absurd (ground (arith, h.0))
stor_loop_lem (suc fuel) (true ∷ script) (x ∷ xs) h enough f =
    let (pieces, left, runs, whole) =
      stor_loop_lem fuel script (drop 1024 (x ∷ xs)) h.1 (omega (arith, length-drop 1024 (x ∷ xs)))
        (omega (arith, length-drop 1024 (x ∷ xs))) in
    (
      take 1024 (x ∷ xs) ∷ pieces,
      left,
      rw (runs, stor_loop) refl,
      ap (◌++◌ (take 1024 (x ∷ xs))) whole ∙ take-drop 1024 (x ∷ xs),
    )

-- An answer that fits in the buffer and has no zero.
pub record IsAnswer (answer : Text) : Type 0 where
  pub plain : c_text answer ≡ answer
  pub short : ltb (length answer) 1024 ≡ true

pub recive_lem :
    (answer : Text) (rest : List (Option Text)) (w : FtpClient)
    → IsAnswer answer
    → w.answers ≡ some answer ∷ rest
    → recive w ≡ some (true, record w { answers = rest; arr = answer })
unfolding recive
recive_lem answer rest w h e = rw (e, h.short, h.plain, recive) refl

connect_lem :
    {address : Text × ℕ} (w : FtpClient)
    → open_passive_mode w.arr ≡ some address
    → connect_link w ≡ some (tt, record w { link = some address })
unfolding connect_link
connect_lem w e = rw (e, connect_link) refl

read_lem :
    (path bytes : Text) (w : FtpClient)
    → lookup path w.disk ≡ some bytes
    → read_local path w ≡ some (some bytes, w)
unfolding read_local
read_lem path bytes w e = rw e refl

push_lem :
    (bytes : Text) (w : FtpClient)
    → AllSent w.sends
    → length bytes ≤ length w.sends
    → (pieces : List Text) × (left : List Bool) × (push_file bytes w
        ≡ some (tt, record w { sends = left; pushed = w.pushed ++ pieces }))
      × (concat pieces ≡ bytes)
unfolding push_file
push_lem bytes w h enough =
    let (pieces, left, runs, whole) =
      stor_loop_lem (suc (length bytes)) w.sends bytes h enough (omega arith) in
    (pieces, left, rw (runs, push_file) refl, whole)

abbrev pub pasv : Text
unfolding text
pasv = text "PASV\r\n"

abbrev pub quits : Text
unfolding text
quits = text "QUIT\r\n"

abbrev pub uploaded : Text
unfolding text
uploaded = text "\u{1b}[1;32m文件已上传\u{1b}[0m"

module _ (w : FtpClient) (ip : ℕ × ℕ × ℕ × ℕ) (port : ℕ) (rest : List (Option Text)) where
  -- PASV, its answer, and the connection.
  pub enter_passive_lem :
      w.answers ≡ some (passive_reply ip port) ∷ rest
      → IsAnswer (passive_reply ip port)
      → port < 65536
      → enter_passive w
        ≡ some (
          tt,
          record w {
            said = w.said ++ pasv ∷ [];
            answers = rest;
            arr = passive_reply ip port;
            link = some (dotted ip, port);
          },
        )
  unfolding enter_passive send_line pure
  enter_passive_lem answers fits small =
      then_step (send_line pasv) _ refl
      ∙ then_step recive _ (recive_lem (passive_reply ip port) rest _ fits answers)
      ∙ then_step skip _ refl
      ∙ connect_lem _ (open_passive_mode-passive_reply ip port small)

module _ (w : FtpClient) (rest : List (Option Text)) where
  begins-IsAnswer : IsAnswer upload_begins
  unfolding c_text text
  begins-IsAnswer = record { plain = refl; short = refl }

  ends-IsAnswer : IsAnswer upload_ends
  unfolding c_text text
  ends-IsAnswer = record { plain = refl; short = refl }

  finish_lem :
      w.answers ≡ some upload_ends ∷ rest
      → finish uploaded w
        ≡ some
            (tt, record w { answers = rest; arr = upload_ends; screen = w.screen ++ uploaded ∷ [] })
  unfolding finish get_arr show complete text starts_with
  finish_lem answers =
      then_step recive _ (recive_lem upload_ends rest w ends-IsAnswer answers)
      ∙ then_step get_arr _ refl

module _ (w : FtpClient) (rest : List (Option Text)) where
  ready_lem : (arr : Text) → arr ≡ upload_begins → starts_with upload_ready arr ≡ true
  unfolding upload_ready text starts_with
  ready_lem arr begins = ap (starts_with upload_ready) begins

  -- The file goes out whole.
  upload_file_lem :
      (bytes : Text)
      → w.arr ≡ upload_begins
      → w.answers ≡ some upload_ends ∷ rest
      → lookup w.task.path w.disk ≡ some bytes
      → AllSent w.sends
      → length bytes ≤ length w.sends
      → Returns upload_file w (λ _ w'.
        (w'.said ≡ w.said) × (w'.link ≡ w.link) × (concat w'.pushed ≡ concat w.pushed ++ bytes))
  unfolding upload_file stor get_arr get_task show upload_ready text starts_with
  upload_file_lem bytes begins answers here sends enough =
      let now = record w { screen = w.screen ++ text "\u{1b}[34m正在发送文件...\u{1b}[0m" ∷ [] } in
      let (pieces, left, runs, whole) = push_lem bytes now sends enough in
      bind_step get_arr _ _ _ refl (
        rw (ready_lem w.arr begins) (
          bind_bind get_task _ _ (
            bind_step get_task _ _ _ refl (
              bind_bind (read_local w.task.path) _ _ (
                bind_step (read_local w.task.path) _ _ _ (read_lem w.task.path bytes _ here) (
                  bind_bind (show _) _ _ (
                    bind_step (show _) _ _ _ refl (
                      bind_step (push_file bytes) _ _ _ runs (
                        done tt _ (finish_lem _ rest answers) (
                          refl,
                          refl,
                          concat-append w.pushed pieces ∙ ap (◌++◌ (concat w.pushed)) whole,
                        ))))))))))

module _ (w : FtpClient) (ip : ℕ × ℕ × ℕ × ℕ) (port : ℕ) (bytes : Text)
    (rest : List (Option Text)) where
  abbrev pub upload_line : Text
  unfolding text
  upload_line =
      transfer_line (text "STOR") w.task.path w.task.from_name w.task.to_name ++ text "\r\n"

  -- Where the answers that the client will get are those that the file server writes for PASV,
  -- of an address and a port below 65536, and for STOR, the first has no zero and fits in the
  -- buffer, the file is there, and no send fails and there are enough of them, sendFile comes to
  -- an end. It has said PASV, the line of STOR and QUIT in this order, has connected to that
  -- address and port, and has sent exactly the bytes of the file there.
  pub send_file-passive_reply :
      w.answers ≡ some (passive_reply ip port) ∷ some upload_begins ∷ some upload_ends ∷ rest
      → IsAnswer (passive_reply ip port)
      → port < 65536
      → lookup w.task.path w.disk ≡ some bytes
      → AllSent w.sends
      → length bytes ≤ length w.sends
      → Returns send_file w (λ _ w'.
        (w'.said ≡ w.said ++ pasv ∷ upload_line ∷ quits ∷ [])
        × (w'.link ≡ some (dotted ip, port))
        × (concat w'.pushed ≡ concat w.pushed ++ bytes))
  unfolding send_file send_line get_task
  send_file-passive_reply answers fits small here sends enough =
      bind_step enter_passive _ _ _
        (enter_passive_lem w ip port (some upload_begins ∷ some upload_ends ∷ rest) answers fits
          small)
        (bind_step get_task _ _ _ refl (
          bind_step (send_line upload_line) _ _ _ refl (
            bind_step recive _ _ _
              (recive_lem upload_begins (some upload_ends ∷ rest) _ (begins-IsAnswer w rest) refl)
              (bind_after upload_file _ _ (upload_file_lem _ rest bytes refl refl here sends enough)
                (λ _ w' h.
                  done tt _ refl (ap (λ l. l ++ quits ∷ []) h.0 ∙ simp append_assoc, h.1, h.2))))))
