-- ===== src/MessageCenter.antt =====
-- src/Server/Manage/messageCenter.cc, Worker::Notify of src/Server/Reactor/Worker.cc and
-- Connection::sendMessage: how a message reaches the socket of another worker's client.
use chatroom.Base.{
  ℕ, ◌==◌, Text, Bool, false, List, [], ◌∷◌, ◌++◌, ◌||◌, none, some, if◌then◌else◌, ◌>>=◌, skip,
  lookup, nat_eq,
}
use chatroom.World.{Connection, Act, worker_fd_at}

-- workers.find(num) != workers.end()
unfoldable pub has_worker : ℕ → List ℕ → Bool
has_worker num [] = false
has_worker num (n ∷ ns) = n == num || has_worker num ns

-- conn.count(fd) in the worker of that number
unfoldable pub has_connection : ℕ → ℕ → List (ℕ × Connection) → Bool
has_connection num fd connections = elim (lookup fd connections) [
  | none ↦ false
  | some c ↦ c.worker == num
]

module _ {Db : Type 0} where
  -- The whole message is taken to be written.
  unfoldable pub send_message : ℕ → Text → Act Db (Unit {0})
  send_message fd msg w = some (tt, record w { sent = w.sent ++ (fd, msg) ∷ [] })

  unfoldable pub notify : ℕ → ℕ → Text → Act Db (Unit {0})
  notify num to_fd msg w =
      if has_connection num to_fd w.connections then send_message to_fd msg w else skip w

  unfoldable pub dispatch : ℕ → ℕ → Text → Act Db (Unit {0})
  dispatch from_fd to_fd msg = do
    num ← worker_fd_at to_fd
    λ w. if has_worker num w.workers then notify num to_fd msg w else skip w
