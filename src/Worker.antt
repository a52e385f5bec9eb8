-- ===== src/Worker.antt =====
-- src/Server/Reactor/Worker.cc and Master::distribute_worker of MasterServer.cc: how a client is
-- handed to a worker, and what an event on its socket does. Epoll is outside the model.
use chatroom.Base.{
  ℕ, suc, ◌%◌, Text, Bool, List, [], not, ◌||◌, none, some, if◌then◌else◌, ◌>>=◌, ◌>>◌, skip, erase,
  assign, lookup, nat_eq,
}
use chatroom.World.{Act, Services}
use chatroom.UserManager.{remove_user}
use chatroom.Connection.Heart.{close}
use chatroom.Connection.Receive.{ReadEnd, read_message}

-- WORKER
abbrev pub worker_count : ℕ
worker_count = 10

module _ {Db : Type 0} where
  -- The constructor of `Connection` does not set heart_time.
  unfoldable pub make_queue : ℕ → ℕ → Bool → Act Db (Unit {0})
  make_queue num cli nonblocking w =
      if nonblocking
      then some (
        tt,
        record w {
          connections =
              assign cli (record { worker = num; buffer = []; heart_time = none }) w.connections;
        },
      )
      else some (tt, w)

  unfoldable pub distribute_worker : ℕ → Bool → Act Db (Unit {0})
  unfolding make_queue
  distribute_worker cli_fd nonblocking w =
      let num = w.next_worker % worker_count in
      make_queue num cli_fd nonblocking
        (record w { next_worker = suc w.next_worker; worker_fd = assign cli_fd num w.worker_fd })

-- One event of epoll on a socket: its flags, and what reading gives.
pub record Event : Type 0 where
  pub error_or_hangup : Bool
  pub input : Bool
  pub chunks : List Text
  pub read_end : ReadEnd

module _ {Db : Type 0} ⦃s : Services Db⦄ where
  drop_connection : ℕ → Act Db (Unit {0})
  drop_connection fd w = some (tt, record w { connections = erase fd w.connections })

  unfoldable pub remove_fd : ℕ → Act Db (Unit {0})
  unfolding drop_connection
  remove_fd fd = do drop_connection fd; remove_user fd; close fd

  -- The body of the loop of eventloop over the events.
  unfoldable pub on_event : ℕ → ℕ → Event → Act Db (Unit {0})
  on_event fuel fd e w =
      if e.error_or_hangup || not e.input then remove_fd fd w else elim (lookup fd w.connections) [
        | none ↦ remove_fd fd w
        | some c ↦
            (do
              alive ← read_message fuel fd e.chunks e.read_end
              if not alive then remove_fd fd else skip)
              w
      ]
