-- ===== src/FileServer/Rules.antt =====
-- The steps of the methods of the file server: a rule for each kind of step.
use mathlib.Core.Path.{subst}
use chatroom.Base.{
  ℕ, suc, ◌≡◌, sym, ap, Text, Bool, List, [], ◌∷◌, ◌++◌, Option, none, some, arith, M, Returns,
  bind_step, ◌>>=◌, length, map, lookup, text_eq,
}
use chatroom.Redis.Documented.{Documented, Kind, View}
use chatroom.RedisClient.Kinded.{Kinded, Does}
use chatroom.FileServer.State.{
  Ftp, Do, FtpServices, ftp_redis, on_redis, DataConn, Recv, Sent, data_conn, is_pasv, close_fd,
}
use chatroom.FileServer.Data.{receive_bytes, transmit, close_data, read_file}
use chatroom.FileServer.Sockets.{recv_loop, send_blocks}
use chatroom.FileServer.Session.{has_command, contains_fd}

module _ {Db : Type 0} where
  pub on_redis_lem :
      {A : Type 0} (call : M Db A) (w : Ftp Db) {a : A} {d : Db}
      → call w.db ≡ some (a, d)
      → on_redis call w ≡ some (a, record w { db = d })
  unfolding on_redis
  on_redis_lem call w e = ground arith

module _ {Db : Type 0} ⦃s : FtpServices Db⦄ (doc : Documented s.redis) {kind_of : Text → Kind} where
  -- A call of RedisClient of which the outcome is known.
  pub bind_redis :
      {A B : Type 0} (call : M Db A) (f : A → Do Db B) {w : Ftp Db} {b : A} {v : View}
      {Q : B → Ftp Db → Type 0}
      → Does doc kind_of call w.db b v
      → ((d : Db) → doc.view d ≡ v → Kinded doc kind_of d → Returns (f b) (record w { db = d }) Q)
      → Returns (on_redis call >>= f) w Q
  bind_redis call f {w} {Q = Q} h k =
      bind_step (on_redis call) f h.result _ (on_redis_lem call w h.runs) (
        subst (λ a. Returns (f a) (record w { db = h.state }) Q) (sym h.holds.0)
          (k h.state h.holds.1 h.holds.2))

module _ {Db : Type 0} where
  pub pasv_lem : (w : Ftp Db) {b : Bool} → w.conn.pasv ≡ b → is_pasv w ≡ some (b, w)
  unfolding is_pasv
  pasv_lem w e = ap (λ x. some (x, w)) e

  pub bind_pasv :
      {B : Type 0} (f : Bool → Do Db B) {w : Ftp Db} {b : Bool} {Q : B → Ftp Db → Type 0}
      → w.conn.pasv ≡ b
      → Returns (f b) w Q
      → Returns (is_pasv >>= f) w Q
  bind_pasv f {w} {b} e h = bind_step is_pasv f b w (pasv_lem w e) h

  pub command_lem :
      (w : Ftp Db) {b : Bool}
      → contains_fd w.conn.control_fd w.conn.comds ≡ b
      → has_command w ≡ some (b, w)
  unfolding has_command
  command_lem w e = ap (λ x. some (x, w)) e

  pub bind_command :
      {B : Type 0} (f : Bool → Do Db B) {w : Ftp Db} {b : Bool} {Q : B → Ftp Db → Type 0}
      → contains_fd w.conn.control_fd w.conn.comds ≡ b
      → Returns (f b) w Q
      → Returns (has_command >>= f) w Q
  bind_command f {w} {b} e h = bind_step has_command f b w (command_lem w e) h

  pub data_conn_lem :
      (w : Ftp Db) {d : DataConn} → w.conn.data_conn ≡ some d → data_conn w ≡ some (d, w)
  unfolding data_conn
  data_conn_lem w e = ground (arith, e)

  pub data_conn_null : (w : Ftp Db) → w.conn.data_conn ≡ none → data_conn w ≡ none
  unfolding data_conn
  data_conn_null w e = ground (arith, e)

  pub bind_data :
      {B : Type 0} (f : DataConn → Do Db B) {w : Ftp Db} {d : DataConn} {Q : B → Ftp Db → Type 0}
      → w.conn.data_conn ≡ some d
      → Returns (f d) w Q
      → Returns (data_conn >>= f) w Q
  bind_data f {w} {d} e h = bind_step data_conn f d w (data_conn_lem w e) h

  receive_lem :
      (w : Ftp Db) {bytes : Text} {left : List Recv}
      → recv_loop w.recvs ≡ some (bytes, left)
      → receive_bytes w ≡ some (bytes, record w { recvs = left })
  unfolding receive_bytes
  receive_lem w e = ground (arith, e)

  pub bind_receive :
      {B : Type 0} (f : Text → Do Db B) {w : Ftp Db} {bytes : Text} {left : List Recv}
      {Q : B → Ftp Db → Type 0}
      → recv_loop w.recvs ≡ some (bytes, left)
      → Returns (f bytes) (record w { recvs = left }) Q
      → Returns (receive_bytes >>= f) w Q
  bind_receive f {w} {bytes} {left} e h = bind_step receive_bytes f bytes _ (receive_lem w e) h

  transmit_lem :
      (w : Ftp Db) (fd : ℕ) (bytes : Text) {pieces : List Text} {left : List Sent}
      → send_blocks (suc (length bytes)) w.sends bytes ≡ some (pieces, left)
      → transmit fd bytes w
        ≡ some (
          tt,
          record w { sends = left; data_sent = w.data_sent ++ map (λ piece. (fd, piece)) pieces },
        )
  unfolding transmit
  transmit_lem w fd bytes e = ground (arith, e)

  pub bind_transmit :
      {B : Type 0} (fd : ℕ) (bytes : Text) (f : Unit {0} → Do Db B) {w : Ftp Db}
      {pieces : List Text} {left : List Sent} {Q : B → Ftp Db → Type 0}
      → send_blocks (suc (length bytes)) w.sends bytes ≡ some (pieces, left)
      → Returns
          (f tt)
          (record w { sends = left; data_sent = w.data_sent ++ map (λ piece. (fd, piece)) pieces })
          Q
      → Returns (transmit fd bytes >>= f) w Q
  bind_transmit fd bytes f {w} e h =
      bind_step (transmit fd bytes) f tt _ (transmit_lem w fd bytes e) h

  read_lem :
      (w : Ftp Db) (name : Text) {o : Option Text}
      → lookup name w.disk ≡ o
      → read_file name w ≡ some (o, w)
  unfolding read_file
  read_lem w name e = ap (λ o. some (o, w)) e

  pub bind_read :
      {B : Type 0} (name : Text) (f : Option Text → Do Db B) {w : Ftp Db} {o : Option Text}
      {Q : B → Ftp Db → Type 0}
      → lookup name w.disk ≡ o
      → Returns (f o) w Q
      → Returns (read_file name >>= f) w Q
  bind_read name f {w} {o} e h = bind_step (read_file name) f o w (read_lem w name e) h

module _ {Db : Type 0} where
  close_data_lem :
      (w : Ftp Db) {d : DataConn}
      → w.conn.data_conn ≡ some d
      → close_data w
        ≡ some (tt, record w { closed = (w.closed ++ d.data_fd ∷ []) ++ d.listen_pasv ∷ [] })
  unfolding close_data data_conn close_fd ◌>>=◌
  close_data_lem w e = ground (arith, e)

  pub bind_close :
      {B : Type 0} (f : Unit {0} → Do Db B) {w : Ftp Db} {d : DataConn} {Q : B → Ftp Db → Type 0}
      → w.conn.data_conn ≡ some d
      → Returns (f tt) (record w { closed = (w.closed ++ d.data_fd ∷ []) ++ d.listen_pasv ∷ [] }) Q
      → Returns (close_data >>= f) w Q
  bind_close f {w} e h = bind_step close_data f tt _ (close_data_lem w e) h
