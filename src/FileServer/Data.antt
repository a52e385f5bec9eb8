-- ===== src/FileServer/Data.antt =====
-- Dataconnect.cc: the data connection, over which files are received and sent.
use chatroom.Base.{
  ℕ, zero, suc, Text, text, Bool, false, [], ◌∷◌, ◌++◌, ◌||◌, ◌-◌, ◌/◌, ◌%◌, Option, none, some,
  if◌then◌else◌, ◌==◌, ◌>>=◌, ◌>>◌, pure, fault, lookup, assign, text_eq, length, map, decimal, not,
  take,
}
use chatroom.RedisClient.Lists.{get_file, set_file, delete_file}
use chatroom.FileServer.State.{
  Do, FtpServices, ftp_redis, on_redis, close_fd, send_response, Sent, data_conn, set_data_conn,
  get_now_time, draw_random,
}
use chatroom.FileServer.Sockets.{accept_loop, recv_loop, send_blocks}

unfoldable pub has_byte : ℕ → Text → Bool
has_byte c [] = false
has_byte c (x ∷ xs) = x == c || has_byte c xs

zeros : ℕ → Text
zeros zero = []
zeros (suc n) = b'0' ∷ zeros n

-- std::setw(5) << std::setfill('0')
unfoldable pub pad5 : Text → Text
unfolding zeros
pad5 digits = zeros (5 - length digits) ++ digits

-- The path under which file_creat keeps a file.
unfoldable pub file_path : ℕ → Text → ℕ → Text
unfolding text pad5
file_path time username f =
    text "/home/linnaid/ChatRoom/chatroom_1/SendFile/"
    ++ (decimal time ++ (text "_" ++ (username ++ (text "_" ++ (pad5 (decimal f) ++ text ".dat")))))

-- The text that tells the address: "227 Entering Passive Mode (h1,h2,h3,h4,p1,p2)".
unfoldable pub passive_reply : ℕ × ℕ × ℕ × ℕ → ℕ → Text
unfolding text
passive_reply (ip1, ip2, ip3, ip4) port =
    text "227 Entering Passive Mode ("
    ++ (decimal ip1
        ++ (text ","
            ++ (decimal ip2
                ++ (text ","
                    ++ (decimal ip3
                        ++ (text ","
                            ++ (decimal ip4
                                ++ (text ","
                                    ++ (decimal (port / 256)
                                        ++ (text "," ++ (decimal (port % 256) ++ text ")")))))))))))

module _ {Db : Type 0} where
  -- Dataconnect::Close
  unfoldable pub close_data : Do Db (Unit {0})
  close_data = do d ← data_conn; close_fd d.data_fd; close_fd d.listen_pasv

  -- socket(AF_INET, SOCK_STREAM, 0), and bind and listen on any port
  unfoldable pub open_socket : Do Db ℕ
  open_socket w = some (w.next_fd, record w { next_fd = suc w.next_fd })

  unfoldable pub accept_data : Do Db (Unit {0})
  accept_data w = elim (accept_loop w.accepts) [
    | none ↦ none
    | some (fd, left) ↦
        (do d ← data_conn; set_data_conn (some (record d { data_fd = fd })))
          (record w { accepts = left })
  ]

  -- The bytes that arrive until the other side closes the connection, or an error.
  unfoldable pub receive_bytes : Do Db Text
  receive_bytes w = elim (recv_loop w.recvs) [
    | none ↦ none
    | some (bytes, left) ↦ some (bytes, record w { recvs = left })
  ]

  -- The bytes of a file, in blocks.
  unfoldable pub transmit : ℕ → Text → Do Db (Unit {0})
  transmit fd bytes w = elim (send_blocks (suc (length bytes)) w.sends bytes) [
    | none ↦ none
    | some (pieces, left) ↦ some (
      tt,
      record w { sends = left; data_sent = w.data_sent ++ map (λ piece. (fd, piece)) pieces },
    )
  ]

  -- One call of send.
  unfoldable pub send_once : ℕ → Text → Do Db (Unit {0})
  send_once fd bytes w = elim w.sends [
    | [] ↦ none
    | Sent.took n ∷ left ↦
        some
          (tt, record w { sends = left; data_sent = w.data_sent ++ (fd, take (suc n) bytes) ∷ [] })
    | _ ∷ left ↦ some (tt, record w { sends = left })
  ]

  unfoldable pub control : Do Db ℕ
  control w = some (w.conn.control_fd, w)

  -- std::ifstream(file_name): the bytes, if the file is there.
  unfoldable pub read_file : Text → Do Db (Option Text)
  read_file name w = some (lookup name w.disk, w)

  unfoldable pub write_file : Text → Text → Do Db (Unit {0})
  write_file name bytes w = some (tt, record w { disk = assign name bytes w.disk })

module _ {Db : Type 0} ⦃s : FtpServices Db⦄ where
  -- The address that the client is to connect to, behind the control socket's.
  unfoldable pub send_passive : Do Db (Unit {0})
  send_passive = do
    fd ← open_socket
    d ← data_conn
    set_data_conn (some (record d { listen_pasv = fd }))
    if s.nonblocking fd
        then (do cli_fd ← control; send_response (passive_reply (s.local_ip cli_fd) (s.port fd)))
        else pure tt

  -- The new file, or nothing where it could not be opened. The name is entered in Redis before.
  unfoldable pub file_creat : Text → Text → Do Db (Option Text)
  file_creat username to_name = do
    time ← get_now_time
    f ← draw_random
    let p = file_path time username f
    on_redis (set_file username to_name p)
    if s.can_create p then (do write_file p []; pure (some p)) else pure none

  -- After the file was opened.
  unfoldable pub keep_file : Text → Do Db (Unit {0})
  unfolding text
  keep_file p = do
    send_response (text "150 Opening BINARY mode data connection for filename.txt.")
    bytes ← receive_bytes
    write_file p bytes
    close_data
    send_response (text "226 Transfer complete")

  unfoldable pub recive_file : Text → Text → Do Db (Unit {0})
  unfolding text keep_file
  recive_file from_name to_name = do
    f_open ← file_creat from_name to_name
    elim f_open [
      | none ↦ (do
        send_response (text "550 Requested action not taken. File unavailable")
        close_data)
      | some p ↦ keep_file p
    ]

  -- After the file was opened.
  unfoldable pub hand_over : Text → Text → Text → Text → Do Db (Unit {0})
  unfolding text
  hand_over file_name bytes from_name to_name = do
    send_response (text "150 Opening BINARY mode data connection...")
    d ← data_conn
    transmit d.data_fd bytes
    close_data
    send_response (text "226 Transfer complete.")
    if not (has_byte b' ' from_name)
        then (do on_redis (delete_file to_name from_name file_name); pure tt)
        else pure tt

  unfoldable pub send_named : Text → Text → Text → Do Db (Unit {0})
  unfolding text hand_over
  send_named file_name from_name to_name = do
    file ← read_file file_name
    elim file [
      | none ↦ send_response (text "550 File not found.")
      | some bytes ↦ hand_over file_name bytes from_name to_name
    ]

  -- file_names[0] of no files is undefined.
  unfoldable pub send_file : Text → Text → Do Db (Unit {0})
  unfolding send_named
  send_file from_name to_name = do
    file_names ← on_redis (get_file s.scan_rounds to_name from_name)
    elim file_names [ [] ↦ fault | file_name ∷ more ↦ send_named file_name from_name to_name ]

  -- send_data: one call of send; what it does not take is lost.
  unfoldable pub send_data : Text → Do Db (Unit {0})
  send_data bytes = do d ← data_conn; send_once d.data_fd bytes; close_data
