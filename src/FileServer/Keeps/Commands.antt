-- ===== src/FileServer/Keeps/Commands.antt =====
-- No command changes the socket of its connection, nor takes back the data connection's mode, and
-- it answers to its own socket only.
use chatroom.Base.{
  starts_with, ℕ, zero, suc, ◌≡◌, refl, sym, ◌∙◌, Text, text, Bool, true, false, not, List, [], ◌∷◌,
  Option, none, some, if◌then◌else◌, arith, ◌>>=◌, pure, fault, bind_inv, eq_text, length,
  append-nil, ==_refl,
}
use chatroom.FileServer.State.{
  Ftp, Do, FtpServices, data_conn, ftp_redis, DataConn, set_pasv, set_data_conn,
}
use chatroom.FileServer.Data.{
  close_data, accept_data, send_passive, file_creat, file_path, keep_file, recive_file, hand_over,
  send_named, send_file, send_data, has_byte,
}
use chatroom.FileServer.Sockets.{accept_loop}
use chatroom.FileServer.Listing.{list, listing, path_or}
use chatroom.FileServer.Command.{retr, stor, quit, run_command, cmd_execute}
use chatroom.FileServer.Session.{
  new_command, drop_data, set_pasv_conn, with_data, handle_command, process_lines, process_input,
  cut_line, is_empty, contains_fd,
}
use chatroom.FileServer.Keeps.{
  Same, Same-refl, Same-trans, Keeps, Keeps-bind, Keeps-pure, Keeps-fault, Keeps-on_redis,
  Keeps-close_fd, Keeps-data_conn, Keeps-is_pasv, Keeps-has_command, Keeps-open_socket,
  Keeps-receive_bytes, Keeps-transmit, Keeps-send_once, Keeps-control, Keeps-read_file,
  Keeps-write_file, Keeps-current_path, Keeps-set_data_conn, Keeps-send_response,
  Keeps-get_now_time, Keeps-draw_random,
}

module _ {Db : Type 0} where
  Keeps-if :
      {A : Type 0} (b : Bool) {m n : Do Db A} → Keeps m → Keeps n → Keeps (if b then m else n)
  Keeps-if true k l = k
  Keeps-if false k l = l

  Keeps-option :
      {A B : Type 0} (o : Option A) {m : Do Db B} {f : A → Do Db B}
      → Keeps m
      → ((a : A) → Keeps (f a))
      → Keeps (elim o [ none ↦ m | some a ↦ f a ])
  Keeps-option none k l = k
  Keeps-option (some a) k l = l a

  Keeps-close_data : Keeps (close_data {Db = Db})
  unfolding close_data
  Keeps-close_data =
      Keeps-bind Keeps-data_conn (λ d. Keeps-bind (Keeps-close_fd _) (λ _. Keeps-close_fd _))

  -- An action that also comes back with `true`.
  record KeepsTrue (m : Do Db Bool) : Type 0 where
    run : (w w' : Ftp Db) (a : Bool) → m w ≡ some (a, w') → Same w w' × (a ≡ true)

  KeepsTrue-bind :
      {A : Type 0} {m : Do Db A} {f : A → Do Db Bool}
      → Keeps m
      → ((a : A) → KeepsTrue (f a))
      → KeepsTrue (m >>= f)
  KeepsTrue-bind {m = m} {f = f} k g = record {
    run = λ w w' b h.
        let (a, v, first, second) = bind_inv m f w h in
        let (same, is_true) = (g a).run v w' b second in
        (Same-trans (k.run w v a first) same, is_true);
  }

  KeepsTrue-pure : KeepsTrue (pure {S = Ftp Db} true)
  unfolding pure
  KeepsTrue-pure = record {
    run = λ w w' a h.
        (Same-refl (ground arith) (ground arith) (ground arith) (ground arith), ground arith);
  }

  set_pasv-Same :
      (w w' : Ftp Db) (u : Unit {0}) (b : Bool) → b ≡ true → set_pasv b w ≡ some (u, w') → Same w w'
  unfolding set_pasv
  set_pasv-Same w w' u b e h = record {
    control = ground arith;
    answers = ([], ground (arith, append-nil {0} w.responses));
    command = λ g. ground arith;
    passive = λ g. ground arith;
  }

  Keeps-set_pasv : {m : Do Db Bool} → KeepsTrue m → Keeps (m >>= λ b. set_pasv b)
  Keeps-set_pasv {m = m} k = record {
    run = λ w w' u h.
        let (b, v, first, second) = bind_inv m (λ b. set_pasv b) w h in
        let (same, is_true) = k.run w v b first in
        Same-trans same (set_pasv-Same v w' u b is_true second);
  }

  Keeps-new_command : Keeps (new_command {Db = Db})
  unfolding new_command contains_fd
  Keeps-new_command = record {
    run = λ w w' a h. record {
      control = ground arith;
      answers = ([], ground (arith, append-nil {0} w.responses));
      command = λ g. ground (arith, ==_refl w.conn.control_fd);
      passive = λ g. ground arith;
    };
  }

  abbrev drop_rest : Ftp Db → Option DataConn → Option (Unit {0} × Ftp Db)
  drop_rest w none = some (tt, w)
  drop_rest w (some d) = (close_data >>= λ _. set_data_conn none) w

  abbrev accept_rest : Ftp Db → Option (ℕ × List (Option ℕ)) → Option (Unit {0} × Ftp Db)
  accept_rest w none = none
  accept_rest w (some (fd, left)) =
      (data_conn >>= λ d. set_data_conn (some (record d { data_fd = fd })))
        (record w { accepts = left })

  dropped :
      (w w' : Ftp Db) (u : Unit {0}) (o : Option DataConn)
      → drop_rest w o ≡ some (u, w')
      → Same w w'
  dropped w w' u none h = Same-refl (ground arith) (ground arith) (ground arith) (ground arith)
  dropped w w' u (some d) h =
      (Keeps-bind Keeps-close_data (λ _. Keeps-set_data_conn none)).run w w' u h

  accepted :
      (w w' : Ftp Db) (u : Unit {0}) (o : Option (ℕ × List (Option ℕ)))
      → accept_rest w o ≡ some (u, w')
      → Same w w'
  accepted w w' u none h = absurd (cc)
  accepted w w' u (some (fd, left)) h = Same-trans (Same-refl refl refl refl refl) (
      (Keeps-bind Keeps-data_conn (λ d. Keeps-set_data_conn _)).run (record w { accepts = left }) w'
        u h)

  drop_eq : (w : Ftp Db) → drop_data w ≡ drop_rest w w.conn.data_conn
  unfolding drop_data
  drop_eq w = ground arith

  accept_eq : (w : Ftp Db) → accept_data w ≡ accept_rest w (accept_loop w.accepts)
  unfolding accept_data
  accept_eq w = ground arith

  Keeps-drop_data : Keeps (drop_data {Db = Db})
  Keeps-drop_data = record {
    run = λ w w' a h. dropped w w' a w.conn.data_conn (sym (drop_eq w) ∙ h);
  }

  Keeps-accept_data : Keeps (accept_data {Db = Db})
  Keeps-accept_data = record {
    run = λ w w' a h. accepted w w' a (accept_loop w.accepts) (sym (accept_eq w) ∙ h);
  }

  Keeps-quit : Keeps (quit {Db = Db})
  unfolding quit
  Keeps-quit = Keeps-bind Keeps-control (λ fd. Keeps-close_fd fd)

module _ {Db : Type 0} ⦃s : FtpServices Db⦄ where
  Keeps-file_creat : (username to_name : Text) → Keeps {Db = Db} (file_creat username to_name)
  unfolding file_creat
  Keeps-file_creat username to_name = Keeps-bind Keeps-get_now_time (λ time.
      Keeps-bind Keeps-draw_random (λ f. Keeps-bind (Keeps-on_redis _) (λ _.
        Keeps-if (s.can_create (file_path time username f))
          (Keeps-bind (Keeps-write_file _ _) (λ _. Keeps-pure _)) (Keeps-pure _))))

  Keeps-keep_file : (p : Text) → Keeps (keep_file {Db = Db} p)
  unfolding keep_file
  Keeps-keep_file p = Keeps-bind (Keeps-send_response _) (λ _.
      Keeps-bind Keeps-receive_bytes (λ bytes.
        Keeps-bind (Keeps-write_file _ _)
          (λ _. Keeps-bind Keeps-close_data (λ _. Keeps-send_response _))))

  Keeps-recive_file : (from_name to_name : Text) → Keeps {Db = Db} (recive_file from_name to_name)
  unfolding recive_file
  Keeps-recive_file from_name to_name = Keeps-bind (Keeps-file_creat from_name to_name) (λ f_open.
      Keeps-option f_open (Keeps-bind (Keeps-send_response _) (λ _. Keeps-close_data))
        (λ p. Keeps-keep_file p))

  Keeps-send_data : (bytes : Text) → Keeps {Db = Db} (send_data bytes)
  unfolding send_data
  Keeps-send_data bytes =
      Keeps-bind Keeps-data_conn (λ d. Keeps-bind (Keeps-send_once _ _) (λ _. Keeps-close_data))

  Keeps-hand_over :
      (file_name bytes from_name to_name : Text)
      → Keeps {Db = Db} (hand_over file_name bytes from_name to_name)
  unfolding hand_over
  Keeps-hand_over file_name bytes from_name to_name = Keeps-bind (Keeps-send_response _) (λ _.
      Keeps-bind Keeps-data_conn (λ d. Keeps-bind (Keeps-transmit _ _) (λ _.
        Keeps-bind Keeps-close_data (λ _. Keeps-bind (Keeps-send_response _) (λ _.
          Keeps-if (not (has_byte b' ' from_name))
            (Keeps-bind (Keeps-on_redis _) (λ _. Keeps-pure _)) (Keeps-pure _))))))

  Keeps-send_named :
      (file_name from_name to_name : Text)
      → Keeps {Db = Db} (send_named file_name from_name to_name)
  unfolding send_named
  Keeps-send_named file_name from_name to_name = Keeps-bind (Keeps-read_file file_name) (λ file.
      Keeps-option file (Keeps-send_response _)
        (λ bytes. Keeps-hand_over file_name bytes from_name to_name))

  Keeps-first :
      (names : List Text) {f : Text → Do Db (Unit {0})}
      → ((name : Text) → Keeps (f name))
      → Keeps {Db = Db} {A = Unit {0}} (elim names [ [] ↦ fault | name ∷ more ↦ f name ])
  Keeps-first [] k = Keeps-fault
  Keeps-first (name ∷ more) k = k name

  Keeps-send_file : (from_name to_name : Text) → Keeps {Db = Db} (send_file from_name to_name)
  unfolding send_file
  Keeps-send_file from_name to_name =
      Keeps-bind (Keeps-on_redis _)
        (λ file_names. Keeps-first file_names (λ name. Keeps-send_named name from_name to_name))

  Keeps-list : (path : Text) → Keeps {Db = Db} (list path)
  unfolding list
  Keeps-list path = Keeps-bind Keeps-current_path (λ current.
      Keeps-option (s.read_dir (path_or current path)) (Keeps-send_response _)
        (λ entries. Keeps-bind (Keeps-send_response _) (λ _. Keeps-send_data (listing entries))))

  Keeps-run_command :
      (cmd_t cmd_m from_name to_name : Text)
      → Keeps {Db = Db} (run_command cmd_t cmd_m from_name to_name)
  unfolding run_command stor retr
  Keeps-run_command cmd_t cmd_m from_name to_name =
      Keeps-if (eq_text cmd_t (text "STOR"))
        (Keeps-bind Keeps-data_conn (λ _. Keeps-recive_file from_name to_name))
        (Keeps-if (eq_text cmd_t (text "RETR"))
          (Keeps-bind Keeps-data_conn (λ _. Keeps-send_file from_name to_name))
          (Keeps-if (eq_text cmd_t (text "LIST")) (Keeps-list cmd_m)
            (Keeps-if (eq_text cmd_t (text "QUIT")) Keeps-quit (Keeps-pure _))))

  Keeps-cmd_execute : (cmd_line : Text) → Keeps {Db = Db} (cmd_execute cmd_line)
  unfolding cmd_execute
  Keeps-cmd_execute cmd_line = Keeps-run_command _ _ _ _

  Keeps-send_passive : Keeps {Db = Db} send_passive
  unfolding send_passive
  Keeps-send_passive = Keeps-bind Keeps-open_socket (λ fd. Keeps-bind Keeps-data_conn (λ d.
      Keeps-bind (Keeps-set_data_conn _) (λ _.
        Keeps-if (s.nonblocking fd) (Keeps-bind Keeps-control (λ cli_fd. Keeps-send_response _))
          (Keeps-pure _))))

  KeepsTrue-set_pasv_conn : KeepsTrue {Db = Db} set_pasv_conn
  unfolding set_pasv_conn
  KeepsTrue-set_pasv_conn = KeepsTrue-bind Keeps-drop_data (λ _.
      KeepsTrue-bind (Keeps-set_data_conn _) (λ _.
        KeepsTrue-bind Keeps-send_passive
          (λ _. KeepsTrue-bind Keeps-accept_data (λ _. KeepsTrue-pure))))

  pub Keeps-handle_command : (cmd_line : Text) → Keeps {Db = Db} (handle_command cmd_line)
  unfolding handle_command with_data
  Keeps-handle_command cmd_line = Keeps-bind Keeps-has_command (λ there.
      Keeps-if (not there) (Keeps-pure _) (
        Keeps-if (starts_with (text "PASV") cmd_line) (Keeps-set_pasv KeepsTrue-set_pasv_conn) (
          Keeps-if (starts_with (text "QUIT") cmd_line) (Keeps-cmd_execute cmd_line) (
            Keeps-bind Keeps-is_pasv (λ pasv.
              Keeps-if pasv
                (Keeps-bind (Keeps-cmd_execute cmd_line) (λ _. Keeps-set_data_conn none))
                (Keeps-send_response _))))))

  Keeps-process_lines : (fuel : ℕ) (line : Text) → Keeps {Db = Db} (process_lines fuel line)
  unfolding process_lines
  Keeps-process_lines zero line = Keeps-fault
  Keeps-process_lines (suc fuel) line = Keeps-option (cut_line line) (Keeps-pure _) (λ cut.
      Keeps-bind (Keeps-if (is_empty cut.0) (Keeps-pure _) (Keeps-handle_command cut.0))
        (λ _. Keeps-process_lines fuel cut.1))

  pub Keeps-process_input : (line : Text) → Keeps {Db = Db} (process_input line)
  unfolding process_input
  Keeps-process_input line =
      Keeps-bind Keeps-new_command (λ _. Keeps-process_lines (suc (length line)) line)
