-- ===== src/FileServer/State.antt =====
-- FTPconnection.h and Dataconnect.h: the state of a connection to the file server, and what the
-- server takes from outside.
use chatroom.Base.{
  ℕ, suc, Text, Bool, List, [], ◌∷◌, ◌++◌, Option, none, some, M, if◌then◌else◌, ◌==◌,
}
use chatroom.Redis.{Redis}

-- What recv and send on a data socket come back with. `took n` is n + 1 bytes, or all where there
-- are fewer.
pub data Recv : Type 0 where
  arrived : Text → Recv
  closed would_block failed : Recv

pub data Sent : Type 0 where
  took : ℕ → Sent
  would_block failed : Sent

-- What readdir, stat, getpwuid, getgrgid and strftime say of an entry of a directory; `stats` is
-- false where stat fails.
pub record Entry : Type 0 where
  pub name : Text
  pub stats : Bool
  pub is_dir : Bool
  pub rights : List Bool
  pub owner : Option Text
  pub group : Option Text
  pub size : ℕ
  pub mtime : Text

-- The n-th reading of the clock and the n-th number from 0 to 99999 that is drawn, and what the
-- system answers: whether a file can be created, the entries of a directory, the four numbers of
-- the address of a socket, its port, and whether it can be made non-blocking.
pub record FtpServices (Db : Type 0) : Type 0 where
  pub redis : Redis Db
  pub scan_rounds : ℕ
  pub seconds : ℕ → ℕ
  pub random : ℕ → ℕ
  pub can_create : Text → Bool
  pub read_dir : Text → Option (List Entry)
  pub local_ip : ℕ → ℕ × ℕ × ℕ × ℕ
  pub port : ℕ → ℕ
  pub nonblocking : ℕ → Bool

instance abbrev pub ftp_redis : {Db : Type 0} ⦃s : FtpServices Db⦄ → Redis Db
ftp_redis ⦃s⦄ = s.redis

-- Dataconnect
pub record DataConn : Type 0 where
  pub listen_pasv : ℕ
  pub data_fd : ℕ

-- FTPconnect; `data_conn` is `none` where the pointer is null, and `comds` the keys of its map.
pub record FtpConnect : Type 0 where
  pub control_fd : ℕ
  pub data_conn : Option DataConn
  pub pasv : Bool
  pub current_dir : Text
  pub comds : List ℕ

abbrev pub new_connect : ℕ → FtpConnect
new_connect cli_fd = record {
  control_fd = cli_fd;
  data_conn = none;
  pasv = Bool.false;
  current_dir = [];
  comds = [];
}

-- The state that a method of FTPconnect acts on: what the server shares, the connection, and the
-- outcomes of the calls of accept, recv and send on data sockets that are still to come.
pub record Ftp (Db : Type 0) : Type 0 where
  pub db : Db
  pub disk : List (Text × Text)
  pub conn : FtpConnect
  -- what was written to the control sockets and the data sockets, oldest first
  pub responses : List (ℕ × Text)
  pub data_sent : List (ℕ × Text)
  pub closed : List ℕ
  pub next_fd : ℕ
  pub accepts : List (Option ℕ)
  pub recvs : List Recv
  pub sends : List Sent
  pub readings : ℕ
  pub draws : ℕ

abbrev pub Do : Type 0 → Type 0 → Type 0
Do Db A = M (Ftp Db) A

-- All that was written to one socket.
unfoldable pub bytes_to : ℕ → List (ℕ × Text) → Text
bytes_to fd [] = []
bytes_to fd ((j, piece) ∷ rest) = (if j == fd then piece else []) ++ bytes_to fd rest

module _ {Db : Type 0} where
  unfoldable pub on_redis : {A : Type 0} → M Db A → Do Db A
  on_redis call w = elim (call w.db) [ none ↦ none | some (a, d) ↦ some (a, record w { db = d }) ]

  unfoldable pub close_fd : ℕ → Do Db (Unit {0})
  close_fd fd w = some (tt, record w { closed = w.closed ++ fd ∷ [] })

  -- FTPconnect::send_response; an error of send is only printed
  unfoldable pub send_response : Text → Do Db (Unit {0})
  send_response test w =
      some (tt, record w { responses = w.responses ++ (w.conn.control_fd, test) ∷ [] })

  -- The data connection behind the pointer, which must not be null.
  unfoldable pub data_conn : Do Db DataConn
  data_conn w = elim w.conn.data_conn [ none ↦ none | some d ↦ some (d, w) ]

  unfoldable pub set_data_conn : Option DataConn → Do Db (Unit {0})
  set_data_conn d w = some (tt, record w { conn = record (w.conn) { data_conn = d } })

  unfoldable pub set_pasv : Bool → Do Db (Unit {0})
  set_pasv b w = some (tt, record w { conn = record (w.conn) { pasv = b } })

  unfoldable pub is_pasv : Do Db Bool
  is_pasv w = some (w.conn.pasv, w)

module _ {Db : Type 0} ⦃s : FtpServices Db⦄ where
  -- Dataconnect::getNowTime, before std::to_string
  unfoldable pub get_now_time : Do Db ℕ
  get_now_time w = some (s.seconds w.readings, record w { readings = suc w.readings })

  unfoldable pub draw_random : Do Db ℕ
  draw_random w = some (s.random w.draws, record w { draws = suc w.draws })
