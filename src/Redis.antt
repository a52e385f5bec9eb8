-- ===== src/Redis.antt =====
-- The Redis server, which the program reaches through the library redis-plus-plus: the commands
-- that it sends, each a parameter. A child states what the documentation promises of them.
pub mod Documented
pub mod Memory
use chatroom.Base.{ℕ, Text, Bool, List, Option}

-- What a command comes back with; `error` is the exception sw::redis::Error.
pub data Reply (A : Type 0) : Type 0 where
  ok : A → Reply A
  error : Reply A

-- A position in a list: from its start, or from its end, where `last 1` is the index -1.
pub data Index : Type 0 where
  first last : ℕ → Index

pub record Redis (Db : Type 0) : Type 0 where
  pub exists : Text → Db → Reply Bool × Db
  pub type_of : Text → Db → Reply Text × Db
  pub del : Text → Db → Reply ℕ × Db
  pub get : Text → Db → Reply (Option Text) × Db
  pub set : Text → Text → Db → Reply Bool × Db
  pub set_ex : Text → Text → ℕ → Db → Reply Bool × Db
  pub hset : Text → List (Text × Text) → Db → Reply ℕ × Db
  pub hget : Text → Text → Db → Reply (Option Text) × Db
  pub hgetall : Text → Db → Reply (List (Text × Text)) × Db
  pub hdel : Text → Text → Db → Reply ℕ × Db
  pub hexists : Text → Text → Db → Reply Bool × Db
  pub sadd : Text → Text → Db → Reply ℕ × Db
  pub srem : Text → Text → Db → Reply ℕ × Db
  pub smembers : Text → Db → Reply (List Text) × Db
  pub rpush : Text → Text → Db → Reply ℕ × Db
  pub lpop : Text → Db → Reply (Option Text) × Db
  pub ltrim : Text → Index → Index → Db → Reply Bool × Db
  pub lrange : Text → Index → Index → Db → Reply (List Text) × Db
  pub lrem : Text → ℕ → Text → Db → Reply ℕ × Db
  -- the cursor to go on from, and some of the keys that match the pattern
  pub scan : ℕ → Text → ℕ → Db → Reply (ℕ × List Text) × Db
