-- ===== src/World.antt =====
-- The state of the server process, and what it takes from outside: Redis, the generated protobuf
-- code, the clock and the random numbers. The handlers of all worker threads act on it one at a
-- time.
use chatroom.Base.{
  Option, ℕ, suc, ◌≡◌, Text, Bool, List, [], none, some, M, at, touch, nat_eq, text_eq, arith,
}
use chatroom.Redis.{Redis}
use chatroom.Chat.{Chat}

-- The n-th reading of the clock, as seconds and as the text that `strftime` makes of it, and the
-- n-th number that uniform_int_distribution<>(0, 15) gives, are unknown functions of n.
pub record Services (Db : Type 0) : Type 0 where
  pub redis : Redis Db
  pub serialize : Chat → Text
  pub parse : Text → Bool × Chat
  pub seconds : ℕ → ℕ
  pub local_time : ℕ → Text
  pub hex_digit : ℕ → ℕ
  -- the fuel of the loops over SCAN
  pub scan_rounds : ℕ

instance abbrev pub services_redis : {Db : Type 0} ⦃s : Services Db⦄ → Redis Db
services_redis ⦃s⦄ = s.redis

-- A `Connection`, and the worker whose table `conn` holds it.
pub record Connection : Type 0 where
  pub worker : ℕ
  pub buffer : Text
  -- `none` is the indeterminate value of a field that nothing has set.
  pub heart_time : Option ℕ

pub record World (Db : Type 0) : Type 0 where
  pub db : Db
  -- the global tables `users`, `fds` and `Worker_fd`
  pub users : List (Text × ℕ)
  pub fds : List (ℕ × Text)
  pub worker_fd : List (ℕ × ℕ)
  -- the ids that `MessageCenter` has a worker for, and the connections of all workers
  pub workers : List ℕ
  pub connections : List (ℕ × Connection)
  -- the counter by which Master hands out clients
  pub next_worker : ℕ
  -- what was written to the sockets, oldest first, and the sockets closed by a handler
  pub sent : List (ℕ × Text)
  pub closed : List ℕ
  -- how often the clock was read, and how many random numbers were drawn
  pub readings : ℕ
  pub draws : ℕ

abbrev pub Act : Type 0 → Type 0 → Type 0
Act Db A = M (World Db) A

module _ {Db : Type 0} where
  -- A call of a method of RedisClient.
  unfoldable pub on_redis : {A : Type 0} → M Db A → Act Db A
  on_redis call w = elim (call w.db) [ none ↦ none | some (a, d) ↦ some (a, record w { db = d }) ]

  pub on_redis-none :
      {A : Type 0} (call : M Db A) (w : World Db) → call w.db ≡ none → on_redis call w ≡ none
  unfolding on_redis
  on_redis-none call w e = ground (arith, e)

  pub on_redis_lem :
      {A : Type 0} (call : M Db A) (w : World Db) {a : A} {d : Db}
      → call w.db ≡ some (a, d)
      → on_redis call w ≡ some (a, record w { db = d })
  unfolding on_redis
  on_redis_lem call w e = ground arith

  -- users[name], where a missing name is entered with 0
  unfoldable pub users_at : Text → Act Db ℕ
  users_at name w = some (at name 0 w.users, record w { users = touch name 0 w.users })

  -- fds[fd], where a missing number is entered with the empty name
  unfoldable pub fds_at : ℕ → Act Db Text
  fds_at fd w = some (at fd [] w.fds, record w { fds = touch fd [] w.fds })

  unfoldable pub worker_fd_at : ℕ → Act Db ℕ
  worker_fd_at fd w = some (at fd 0 w.worker_fd, record w { worker_fd = touch fd 0 w.worker_fd })

module _ {Db : Type 0} ⦃s : Services Db⦄ where
  -- Protocol::GetNowTime
  unfoldable pub get_now_text : Act Db Text
  get_now_text w = some (s.local_time w.readings, record w { readings = suc w.readings })

  -- Connection::getNowTime
  unfoldable pub get_now_time : Act Db ℕ
  get_now_time w = some (s.seconds w.readings, record w { readings = suc w.readings })

  unfoldable pub draw_digit : Act Db ℕ
  draw_digit w = some (s.hex_digit w.draws, record w { draws = suc w.draws })
