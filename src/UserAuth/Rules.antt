-- ===== src/UserAuth/Rules.antt =====
-- How the steps of the login server act on it.
use mathlib.Core.Path.{subst}
use chatroom.Base.{◌≡◌, sym, Text, some, arith, M, ◌>>=◌, Returns, bind_step}
use chatroom.Redis.Documented.{Documented, Kind, View}
use chatroom.RedisClient.Kinded.{Kinded, Does}
use chatroom.UserAuth.State.{AuthServer, AuthServices, auth_redis, Serve, on_redis}

pub on_redis_lem :
    {Db A : Type 0} (call : M Db A) (w : AuthServer Db) {a : A} {d : Db}
    → call w.db ≡ some (a, d)
    → on_redis call w ≡ some (a, record w { db = d })
unfolding on_redis
on_redis_lem call w e = ground arith

module _ {Db : Type 0} ⦃s : AuthServices Db⦄ where
  pub bind_redis :
      {A B : Type 0} (doc : Documented s.redis) {kind_of : Text → Kind} (call : M Db A)
      (f : A → Serve Db B) {w : AuthServer Db} {b : A} {v : View} {Q : B → AuthServer Db → Type 0}
      → Does doc kind_of call w.db b v
      → ((d : Db) → doc.view d ≡ v → Kinded doc kind_of d → Returns (f b) (record w { db = d }) Q)
      → Returns (on_redis call >>= f) w Q
  bind_redis doc call f {w} {Q} h k =
      bind_step (on_redis call) f h.result _ (on_redis_lem call w h.runs) (
        subst (λ a. Returns (f a) (record w { db = h.state }) Q) (sym h.holds.0)
          (k h.state h.holds.1 h.holds.2))
