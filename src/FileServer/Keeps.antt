-- ===== src/FileServer/Keeps.antt =====
-- What no command of a client changes, and where the answers go.
pub mod Commands
use chatroom.Base.{
  ℕ, ◌≡◌, refl, sym, ap, ◌∙◌, Text, Bool, true, false, List, [], ◌∷◌, ◌++◌, Option, none, some, map,
  arith, M, ◌>>=◌, pure, fault, bind_inv, append_assoc, append-nil, ==_refl, ◌==◌, ◌||◌,
}
use chatroom.FileServer.State.{
  Ftp, Do, FtpServices, DataConn, on_redis, close_fd, send_response, data_conn, set_data_conn,
  is_pasv, get_now_time, draw_random,
}
use chatroom.FileServer.Session.{contains_fd, has_command}
use chatroom.FileServer.Data.{
  open_socket, receive_bytes, transmit, send_once, control, read_file, write_file,
}
use chatroom.FileServer.Listing.{current_path}

abbrev pub to_socket : ℕ → List Text → List (ℕ × Text)
to_socket fd answers = map (λ answer. (fd, answer)) answers

-- The later responses are the earlier ones and more to one socket.
abbrev pub Answers : ℕ → List (ℕ × Text) → List (ℕ × Text) → Type 0
Answers fd before after = (answers : List Text) × (after ≡ before ++ to_socket fd answers)

pub record Same {Db : Type 0} (w w' : Ftp Db) : Type 0 where
  pub control : w'.conn.control_fd ≡ w.conn.control_fd
  pub answers : Answers w.conn.control_fd w.responses w'.responses
  pub command :
      contains_fd w.conn.control_fd w.conn.comds ≡ true
      → contains_fd w'.conn.control_fd w'.conn.comds ≡ true
  pub passive : w.conn.pasv ≡ true → w'.conn.pasv ≡ true

map-append :
    (fd : ℕ) (xs ys : List Text) → to_socket fd (xs ++ ys) ≡ to_socket fd xs ++ to_socket fd ys
map-append fd [] ys = refl
map-append fd (x ∷ xs) ys = ap (◌∷◌ (fd, x)) (map-append fd xs ys)

Answers-trans :
    (fd : ℕ) (xs : List (ℕ × Text)) {ys zs : List (ℕ × Text)}
    → Answers fd xs ys
    → Answers fd ys zs
    → Answers fd xs zs
Answers-trans fd xs (a, e) (b, f) = (
  a ++ b,
  f
      ∙ ap (λ l. l ++ to_socket fd b) e
      ∙ append_assoc xs (to_socket fd a) (to_socket fd b)
      ∙ ap (λ l. xs ++ l) (sym (map-append fd a b)),
)

module _ {Db : Type 0} where
  pub Same-trans : {w v u : Ftp Db} → Same w v → Same v u → Same w u
  Same-trans {w} {v} {u} a b = record {
    control = b.control ∙ a.control;
    answers =
        Answers-trans w.conn.control_fd w.responses a.answers
          (b.answers.0, b.answers.1 ∙ rw a.control refl);
    command = λ h. b.command (a.command h);
    passive = λ h. b.passive (a.passive h);
  }

  -- Where the connection and the responses are as they were.
  pub Same-refl :
      {w w' : Ftp Db}
      → w'.conn.control_fd ≡ w.conn.control_fd
      → w'.conn.comds ≡ w.conn.comds
      → w'.conn.pasv ≡ w.conn.pasv
      → w'.responses ≡ w.responses
      → Same w w'
  Same-refl {w} c k p r = record {
    control = c;
    answers = ([], r ∙ sym (append-nil w.responses));
    command = λ h. rw (c, k) h;
    passive = λ h. p ∙ h;
  }

  -- An action that keeps these, where it comes to an end.
  pub record Keeps {A : Type 0} (m : Do Db A) : Type 0 where
    pub run : (w w' : Ftp Db) (a : A) → m w ≡ some (a, w') → Same w w'

  pub Keeps-bind :
      {A B : Type 0} {m : Do Db A} {f : A → Do Db B}
      → Keeps m
      → ((a : A) → Keeps (f a))
      → Keeps (m >>= f)
  Keeps-bind {m = m} {f = f} k g = record {
    run = λ w w' b h.
        let (a, v, first, second) = bind_inv m f w h in
        Same-trans (k.run w v a first) ((g a).run v w' b second);
  }

  -- A step that leaves the connection and the responses alone.
  pub Keeps-plain :
      {A : Type 0} {m : Do Db A}
      → ((w w' : Ftp Db) (a : A)
          → m w ≡ some (a, w')
          → (w'.conn ≡ w.conn) × (w'.responses ≡ w.responses))
      → Keeps m
  Keeps-plain k = record {
    run = λ w w' a h.
        let (c, r) = k w w' a h in
        Same-refl (ap (λ x. x.control_fd) c) (ap (λ x. x.comds) c) (ap (λ x. x.pasv) c) r;
  }

  pub Keeps-pure : {A : Type 0} (a : A) → Keeps (pure {S = Ftp Db} a)
  unfolding pure
  Keeps-pure a = Keeps-plain (λ w w' b h. ground arith)

  pub Keeps-fault : {A : Type 0} → Keeps (fault {S = Ftp Db} {A = A})
  unfolding fault
  Keeps-fault = Keeps-plain (λ w w' b h. ground arith)

  pub Keeps-on_redis : {A : Type 0} (call : M Db A) → Keeps (on_redis call)
  unfolding on_redis
  Keeps-on_redis call = Keeps-plain (λ w w' b h. ground arith)

  pub Keeps-close_fd : (fd : ℕ) → Keeps (close_fd {Db = Db} fd)
  unfolding close_fd
  Keeps-close_fd fd = Keeps-plain (λ w w' b h. ground arith)

  pub Keeps-data_conn : Keeps (data_conn {Db = Db})
  unfolding data_conn
  Keeps-data_conn = Keeps-plain (λ w w' b h. ground arith)

  pub Keeps-is_pasv : Keeps (is_pasv {Db = Db})
  unfolding is_pasv
  Keeps-is_pasv = Keeps-plain (λ w w' b h. ground arith)

  pub Keeps-has_command : Keeps (has_command {Db = Db})
  unfolding has_command
  Keeps-has_command = Keeps-plain (λ w w' b h. ground arith)

  pub Keeps-open_socket : Keeps (open_socket {Db = Db})
  unfolding open_socket
  Keeps-open_socket = Keeps-plain (λ w w' b h. ground arith)

  pub Keeps-receive_bytes : Keeps (receive_bytes {Db = Db})
  unfolding receive_bytes
  Keeps-receive_bytes = Keeps-plain (λ w w' b h. ground arith)

  pub Keeps-transmit : (fd : ℕ) (bytes : Text) → Keeps (transmit {Db = Db} fd bytes)
  unfolding transmit
  Keeps-transmit fd bytes = Keeps-plain (λ w w' b h. ground arith)

  pub Keeps-send_once : (fd : ℕ) (bytes : Text) → Keeps (send_once {Db = Db} fd bytes)
  unfolding send_once
  Keeps-send_once fd bytes = Keeps-plain (λ w w' b h. ground arith)

  pub Keeps-control : Keeps (control {Db = Db})
  unfolding control
  Keeps-control = Keeps-plain (λ w w' b h. ground arith)

  pub Keeps-read_file : (name : Text) → Keeps (read_file {Db = Db} name)
  unfolding read_file
  Keeps-read_file name = Keeps-plain (λ w w' b h. ground arith)

  pub Keeps-write_file : (name bytes : Text) → Keeps (write_file {Db = Db} name bytes)
  unfolding write_file
  Keeps-write_file name bytes = Keeps-plain (λ w w' b h. ground arith)

  pub Keeps-current_path : Keeps (current_path {Db = Db})
  unfolding current_path
  Keeps-current_path = Keeps-plain (λ w w' b h. ground arith)

  pub Keeps-set_data_conn : (d : Option DataConn) → Keeps (set_data_conn {Db = Db} d)
  unfolding set_data_conn
  Keeps-set_data_conn d = record {
    run = λ w w' a h. Same-refl (ground arith) (ground arith) (ground arith) (ground arith);
  }

  pub Keeps-send_response : (test : Text) → Keeps (send_response {Db = Db} test)
  unfolding send_response
  Keeps-send_response test = record {
    run = λ w w' a h. record {
      control = ground arith;
      answers = (test ∷ [], ground arith);
      command = λ g. ground arith;
      passive = λ g. ground arith;
    };
  }

module _ {Db : Type 0} ⦃s : FtpServices Db⦄ where
  pub Keeps-get_now_time : Keeps (get_now_time {Db = Db})
  unfolding get_now_time
  Keeps-get_now_time = Keeps-plain (λ w w' b h. ground arith)

  pub Keeps-draw_random : Keeps (draw_random {Db = Db})
  unfolding draw_random
  Keeps-draw_random = Keeps-plain (λ w w' b h. ground arith)
