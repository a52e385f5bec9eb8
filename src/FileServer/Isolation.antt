-- ===== src/FileServer/Isolation.antt =====
-- The workers of the file server (reactor/worker.cc) over events: where connections stand, and
-- which socket is answered.
use chatroom.Base.{
  ℕ, ◌≡◌, refl, sym, ◌∙◌, Text, List, [], Option, none, some, lookup, assign, nat_eq, lookup-assign,
  arith, ==_iff, Option-cases, inl, inr, append-nil,
}
use chatroom.FileServer.State.{Ftp, FtpConnect, FtpServices, new_connect}
use chatroom.FileServer.Session.{process_input}
use chatroom.FileServer.Reactor.{FtpWorker, make_queue, clean_client, hand_io}
use chatroom.FileServer.Keeps.{Answers}
use chatroom.FileServer.Keeps.Commands.{Keeps-process_input}

abbrev pub IsKeyed : {Db : Type 0} → FtpWorker Db → Type 0
IsKeyed w = (fd : ℕ) (c : FtpConnect) → lookup fd w.connections ≡ some c → c.control_fd ≡ fd

-- A connection put under its own socket.
assign-IsKeyed :
    (cli : ℕ) (c : FtpConnect) (m : List (ℕ × FtpConnect))
    → c.control_fd ≡ cli
    → ((fd : ℕ) (b : FtpConnect) → lookup fd m ≡ some b → b.control_fd ≡ fd)
    → (fd : ℕ) (b : FtpConnect) → lookup fd (assign cli c m) ≡ some b
    → b.control_fd ≡ fd
assign-IsKeyed cli c m e h fd b found =
    ground (arith, lookup-assign cli fd c m, ==_iff cli fd, h fd b)

same_some : {A : Type 0} {a b : A} → some a ≡ some b → a ≡ b
same_some h = cc

-- What can happen to a worker: it is given a client, or reads from one.
pub data Event : Type 0 where
  accepted : ℕ → Event
  readable : ℕ → Option Text → Event

abbrev pub socket_of : Event → ℕ
socket_of (Event.accepted cli) = cli
socket_of (Event.readable cli outcome) = cli

module _ {Db : Type 0} ⦃s : FtpServices Db⦄ where
  -- One round of the loop over the events, and what make_queue does from the master's thread.
  unfoldable pub serve : Event → FtpWorker Db → Option (FtpWorker Db)
  serve (Event.accepted cli) w = some (make_queue cli w)
  serve (Event.readable cli outcome) w = hand_io cli outcome w

  abbrev after_input : ℕ → FtpWorker Db → Option (Unit {0} × Ftp Db) → Option (FtpWorker Db)
  after_input cli w none = none
  after_input cli w (some (u, ftp)) =
      some (record w { connections = assign cli ftp.conn w.connections; ftp = ftp })

  hand_io_eq :
      (cli : ℕ) (buf : Text) (w : FtpWorker Db) {c : FtpConnect}
      → lookup cli w.connections ≡ some c
      → hand_io cli (some buf) w
        ≡ after_input cli w (process_input buf (record (w.ftp) { conn = c }))
  unfolding hand_io
  hand_io_eq cli buf w e = rw (e, hand_io) (ground arith)

  hand_io_unknown :
      (cli : ℕ) (buf : Text) (w : FtpWorker Db)
      → lookup cli w.connections ≡ none
      → hand_io cli (some buf) w ≡ some w
  unfolding hand_io
  hand_io_unknown cli buf w e = rw (e, hand_io) refl

  abbrev Kept : ℕ → FtpWorker Db → FtpWorker Db → Type 0
  Kept cli w w' = IsKeyed w' × Answers cli w.ftp.responses w'.ftp.responses

  after_input_lem :
      (cli : ℕ) (buf : Text) (w w' : FtpWorker Db) (c : FtpConnect)
      → IsKeyed w
      → lookup cli w.connections ≡ some c
      → (o : Option (Unit {0} × Ftp Db)) → process_input buf (record (w.ftp) { conn = c }) ≡ o
      → after_input cli w o ≡ some w'
      → Kept cli w w'
  after_input_lem cli buf w w' c keyed found none runs h = absurd (cc)
  after_input_lem cli buf w w' c keyed found (some (u, ftp)) runs h =
      let same = (Keeps-process_input buf).run (record (w.ftp) { conn = c }) ftp u runs in
      let own = keyed cli c found in
      let e : record w { connections = assign cli ftp.conn w.connections; ftp = ftp } ≡ w' =
        same_some h in
      rw (← e) (
        assign-IsKeyed cli ftp.conn w.connections (same.control ∙ own) keyed,
        (same.answers.0, same.answers.1 ∙ rw own refl),
      )

  hand_io-Kept :
      (cli : ℕ) (buf : Text) (w w' : FtpWorker Db)
      → IsKeyed w
      → hand_io cli (some buf) w ≡ some w'
      → Kept cli w w'
  hand_io-Kept cli buf w w' keyed h = elim (Option-cases (lookup cli w.connections)) [
    | inl unknown ↦
        let e : w ≡ w' = same_some (sym (hand_io_unknown cli buf w unknown) ∙ h) in
        rw (← e) (keyed, ([], sym (append-nil w.ftp.responses)))
    | inr (c, found) ↦
        after_input_lem cli buf w w' c keyed found _ refl (sym (hand_io_eq cli buf w found) ∙ h)
  ]

  -- Where each connection of a worker of the file server stands under its own socket, and one
  -- event, a new client or what was read from one, is handled to its end, this still holds, and
  -- every answer went to the socket of the event.
  pub serve-IsKeyed :
      (e : Event) (w w' : FtpWorker Db)
      → IsKeyed w
      → serve e w ≡ some w'
      → IsKeyed w' × Answers (socket_of e) w.ftp.responses w'.ftp.responses
  unfolding serve make_queue hand_io clean_client
  serve-IsKeyed (Event.accepted cli) w w' keyed h = rw (← same_some h) (
    assign-IsKeyed cli (new_connect cli) w.connections refl keyed,
    ([], sym (append-nil w.ftp.responses)),
  )
  serve-IsKeyed (Event.readable cli none) w w' keyed h =
      rw (← same_some h) (keyed, ([], sym (append-nil w.ftp.responses)))
  serve-IsKeyed (Event.readable cli (some buf)) w w' keyed h = hand_io-Kept cli buf w w' keyed h
