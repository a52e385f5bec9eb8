-- ===== src/FileClient/Transfer.antt =====
-- FTP_client.cc: sendFile and getFile, the two sides of a transfer that the client takes.
use chatroom.Base.{
  ℕ, zero, suc, Text, text, Bool, true, false, List, [], ◌∷◌, ◌++◌, Option, none, some, ◌>>=◌, ◌>>◌,
  skip, if◌then◌else◌, length, take, drop, starts_with,
}
use chatroom.FileServer.State.{Recv}
use chatroom.FileServer.Words.{transfer_line}
use chatroom.FileClient.State.{
  FileServices, Run, send_line, recive, connect_link, get_arr, get_task, show, read_local,
  write_local,
}

-- Stor, the loop over the blocks: what was sent, the outcomes that are left, and whether no call
-- failed. The fuel is the number of blocks and one more.
unfoldable pub stor_loop : ℕ → List Bool → Text → Option (List Text × List Bool × Bool)
stor_loop zero script bytes = none
stor_loop (suc fuel) script [] = some ([], script, true)
stor_loop (suc fuel) [] (x ∷ xs) = none
stor_loop (suc fuel) (false ∷ rest) (x ∷ xs) = some ([], rest, false)
stor_loop (suc fuel) (true ∷ rest) (x ∷ xs) = elim (stor_loop fuel rest (drop 1024 (x ∷ xs))) [
  | none ↦ none
  | some (pieces, left, ended) ↦ some (take 1024 (x ∷ xs) ∷ pieces, left, ended)
]

-- Retr, the loop over recv: any error ends it.
unfoldable pub fetch_loop : List Recv → Option (Text × List Recv)
fetch_loop [] = none
fetch_loop (Recv.arrived bytes ∷ rest) = elim (fetch_loop rest) [
  | none ↦ none
  | some (more, left) ↦ some (bytes ++ more, left)
]
fetch_loop (Recv.closed ∷ rest) = some ([], rest)
fetch_loop (Recv.would_block ∷ rest) = some ([], rest)
fetch_loop (Recv.failed ∷ rest) = some ([], rest)

unfoldable pub push_file : Text → Run (Unit {0})
unfolding stor_loop
push_file bytes w = elim (stor_loop (suc (length bytes)) w.sends bytes) [
  | none ↦ none
  | some (pieces, left, ended) ↦ some (tt, record w { sends = left; pushed = w.pushed ++ pieces })
]

unfoldable pub fetch : Run Text
unfolding fetch_loop
fetch w = elim (fetch_loop w.recvs) [
  | none ↦ none
  | some (bytes, left) ↦ some (bytes, record w { recvs = left })
]

unfoldable pub stor : Run (Unit {0})
unfolding push_file text
stor = do
  task ← get_task
  file ← read_local task.path
  elim file [
    | none ↦ skip
    | some bytes ↦ (do show (text "\u{1b}[34m正在发送文件...\u{1b}[0m"); push_file bytes)
  ]

-- The two answers by which sendFile and getFile go on, as far as they are compared.
unfoldable pub upload_ready : Text
unfolding text
upload_ready = take 44 (text "150 Opening BINARY mode data connection for filename.txt.")

unfoldable pub download_ready : Text
unfolding text
download_ready = text "150 Opening BINARY mode data connection..."

unfoldable pub complete : Text
unfolding text
complete = take 16 (text "226 Transfer complete")

-- The answer after a transfer.
unfoldable pub finish : Text → Run (Unit {0})
finish done_text = do
  got ← recive
  if got
      then (do arr ← get_arr; if starts_with complete arr then show done_text else skip)
      else skip

-- PASV, and the address in the answer; a failure to receive it is only printed.
unfoldable pub enter_passive : Run (Unit {0})
unfolding text
enter_passive = do
  send_line (text "PASV\r\n")
  got ← recive
  if got then skip else show (text "\u{1b}[31m接收失败,PASV模式无法开启...\u{1b}[0m")
  connect_link

-- sendFile from the answer to STOR on.
unfoldable pub upload_file : Run (Unit {0})
unfolding text stor finish
upload_file = do
  arr ← get_arr
  if starts_with upload_ready arr
      then (do stor; finish (text "\u{1b}[1;32m文件已上传\u{1b}[0m"))
      else skip

unfoldable pub send_file : Run (Unit {0})
unfolding text enter_passive upload_file
send_file = do
  enter_passive
  task ← get_task
  send_line (transfer_line (text "STOR") task.path task.from_name task.to_name ++ text "\r\n")
  recive
  upload_file
  send_line (text "QUIT\r\n")

module _ ⦃s : FileServices⦄ where
  -- File_creat: the new file, or nothing
  unfoldable pub file_creat : Run (Option Text)
  unfolding text
  file_creat w =
      let path =
        s.directory
        ++ (text "/"
            ++ (s.local_time w.readings
                ++ (text "_" ++ (w.task.to_name ++ (text "_" ++ w.task.file_name))))) in
      some (if s.can_create path then some path else none, record w { readings = suc w.readings })

  -- Without a file the socket is closed, so recv fails at once.
  unfoldable pub retr : Run (Unit {0})
  unfolding text fetch file_creat
  retr = do
    file ← file_creat
    task ← get_task
    show (text "\u{1b}[34m正在接收文件...\u{1b}[0m")
    show task.file_name
    elim file [ none ↦ skip | some path ↦ (do bytes ← fetch; write_local path bytes) ]

  unfoldable pub download_file : Run (Unit {0})
  unfolding text retr finish
  download_file = do
    arr ← get_arr
    if starts_with download_ready arr
        then (do retr; finish (text "\u{1b}[1;32m文件已下载\u{1b}[0m"))
        else skip

  unfoldable pub get_file : Run (Unit {0})
  unfolding text enter_passive download_file
  get_file = do
    enter_passive
    task ← get_task
    let msg = transfer_line (text "RETR") task.path task.from_name task.to_name ++ text "\r\n"
    send_line msg
    show msg
    recive
    download_file
    send_line (text "QUIT\r\n")
