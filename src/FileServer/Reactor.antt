-- ===== src/FileServer/Reactor.antt =====
-- The master and the workers of the file server (reactor/master.cc and reactor/worker.cc): how
-- clients are handed out, and what a worker does with what it reads.
use chatroom.Base.{
  ℕ, suc, Text, List, [], ◌∷◌, ◌++◌, ◌%◌, Option, none, some, if◌then◌else◌, ◌==◌, lookup, assign,
  nat_eq,
}
use chatroom.FileServer.State.{Ftp, Do, FtpConnect, FtpServices, new_connect}
use chatroom.FileServer.Session.{process_input}

-- A worker: its clients and connections, and the state they share, of which `conn` is the
-- connection that was handled last.
pub record FtpWorker (Db : Type 0) : Type 0 where
  pub cli_fd : List ℕ
  pub connections : List (ℕ × FtpConnect)
  pub ftp : Ftp Db

-- std::remove and erase
unfoldable pub remove_fd : ℕ → List ℕ → List ℕ
remove_fd cli [] = []
remove_fd cli (fd ∷ fds) = let rest = remove_fd cli fds in if fd == cli then rest else fd ∷ rest

-- master::distribute_worker: the worker, and the counter after it
unfoldable pub distribute_worker : ℕ → ℕ → ℕ × ℕ
distribute_worker workers worker = (worker % workers, suc worker)

module _ {Db : Type 0} where
  unfoldable pub make_queue : ℕ → FtpWorker Db → FtpWorker Db
  make_queue cli w = record w {
    cli_fd = w.cli_fd ++ cli ∷ [];
    connections = assign cli (new_connect cli) w.connections;
  }

  -- The connection stays in the table.
  unfoldable pub clean_client : ℕ → FtpWorker Db → FtpWorker Db
  unfolding remove_fd
  clean_client cli w = record w {
    cli_fd = remove_fd cli w.cli_fd;
    ftp = record (w.ftp) { closed = w.ftp.closed ++ cli ∷ [] };
  }

  -- A method is called on another connection.
  unfoldable pub attend : FtpConnect → Do Db (Unit {0})
  attend c ftp = some (tt, record ftp { conn = c })

module _ {Db : Type 0} ⦃s : FtpServices Db⦄ where
  -- What recv came back with: nothing at the end or an error, and else at most 1023 bytes.
  unfoldable pub hand_io : ℕ → Option Text → FtpWorker Db → Option (FtpWorker Db)
  hand_io cli none w = some (clean_client cli w)
  hand_io cli (some buf) w = elim (lookup cli w.connections) [
    | none ↦ some w
    | some c ↦ elim (process_input buf (record (w.ftp) { conn = c })) [
      | none ↦ none
      | some (_, ftp) ↦
          some (record w { connections = assign cli ftp.conn w.connections; ftp = ftp })
    ]
  ]
