-- ===== src/UserAuth/State.antt =====
-- The messages of Proto/user_auth.proto, the fields of `UserAuth_s`, and what it takes from outside.
use chatroom.Base.{ℕ, suc, Text, Bool, false, List, [], ◌∷◌, ◌++◌, none, some, M}
use chatroom.Redis.{Redis}

pub data Action : Type 0 where
  unknown login logout register rverify lverify : Action
  other : ℕ → Action

pub data Select : Type 0 where
  password email : Select
  other : ℕ → Select

pub record RegisterVer : Type 0 where
  pub email_msg : Text
  pub decide : Bool
  pub time : Text
  pub username : Text

pub record LoginVer : Type 0 where
  pub decide : Bool
  pub email_msg : Text
  pub time : Text
  pub username : Text

pub record RegisterRequest : Type 0 where
  pub username : Text
  pub password : Text
  pub email : Text
  pub phone : Text

pub record RegisterResponse : Type 0 where
  pub decide : Bool
  pub msg : Text

pub record LogInRequest : Type 0 where
  pub select : Select
  pub username : Text
  pub password : Text
  pub email : Text

pub record LogInResponse : Type 0 where
  pub decide : ℕ

pub record Auth : Type 0 where
  pub action : Action
  pub req : RegisterRequest
  pub res : RegisterResponse
  pub loq : LogInRequest
  pub los : LogInResponse
  pub r_ver : RegisterVer
  pub l_ver : LoginVer
  pub msg : Text

abbrev pub empty_auth : Auth
empty_auth = record {
  action = Action.unknown;
  req = record { username = []; password = []; email = []; phone = [] };
  res = record { decide = false; msg = [] };
  loq = record { select = Select.password; username = []; password = []; email = [] };
  los = record { decide = 0 };
  r_ver = record { email_msg = []; decide = false; time = []; username = [] };
  l_ver = record { decide = false; email_msg = []; time = []; username = [] };
  msg = [];
}

-- The n-th number that uniform_int_distribution<>(0, 9) gives is an unknown function of n, and so
-- is the n-th reading of the clock.
pub record AuthServices (Db : Type 0) : Type 0 where
  pub redis : Redis Db
  pub serialize : Auth → Text
  pub parse : Text → Bool × Auth
  pub local_time : ℕ → Text
  pub decimal_digit : ℕ → ℕ

instance abbrev pub auth_redis : {Db : Type 0} ⦃s : AuthServices Db⦄ → Redis Db
auth_redis ⦃s⦄ = s.redis

pub record AuthServer (Db : Type 0) : Type 0 where
  pub db : Db
  -- the fields user_info and handle_c
  pub user_info : List (Text × Text)
  pub handle_buffers : List (ℕ × Text)
  -- what was sent to the sockets and mailed to the addresses, oldest first
  pub sent : List (ℕ × Text)
  pub mailed : List (Text × Text)
  pub closed : List ℕ
  pub readings : ℕ
  pub draws : ℕ

abbrev pub Serve : Type 0 → Type 0 → Type 0
Serve Db A = M (AuthServer Db) A

module _ {Db : Type 0} where
  unfoldable pub on_redis : {A : Type 0} → M Db A → Serve Db A
  on_redis call w = elim (call w.db) [ none ↦ none | some (a, d) ↦ some (a, record w { db = d }) ]

  -- ::send of the whole buffer, with no length before it
  unfoldable pub send : ℕ → Text → Serve Db (Unit {0})
  send cli buf w = some (tt, record w { sent = w.sent ++ (cli, buf) ∷ [] })

module _ {Db : Type 0} ⦃s : AuthServices Db⦄ where
  unfoldable pub get_now_text : Serve Db Text
  get_now_text w = some (s.local_time w.readings, record w { readings = suc w.readings })

  unfoldable pub draw_digit : Serve Db ℕ
  draw_digit w = some (s.decimal_digit w.draws, record w { draws = suc w.draws })
