-- ===== src/Connection/Heart.antt =====
-- connection.cc: checkHeart and Close.
pub mod Beats
use chatroom.Base.{
  ℕ, ◌-◌, ◌==◌, Text, text, Bool, true, false, List, [], ◌∷◌, ◌++◌, not, none, some, ltb,
  if◌then◌else◌, ◌>>=◌, ◌>>◌, pure, skip, lookup, assign, nat_eq,
}
use chatroom.World.{World, Connection, Act, Services, get_now_time}
use chatroom.Protocol.{is_heartbeat}

-- TIME_OUT, in seconds
abbrev pub time_out : ℕ
time_out = 40

module _ {Db : Type 0} where
  -- ::close(_fd). The connection stays in its worker's table.
  unfoldable pub close : ℕ → Act Db (Unit {0})
  close fd w = some (tt, record w { closed = w.closed ++ fd ∷ [] })

  -- Reading the field before anything has set it is undefined.
  heart_time_of : ℕ → Act Db ℕ
  heart_time_of fd w = elim (lookup fd w.connections) [
    | none ↦ none
    | some c ↦ elim c.heart_time [ none ↦ none | some time ↦ some (time, w) ]
  ]

  unfoldable pub set_heart_time : ℕ → ℕ → Act Db (Unit {0})
  set_heart_time fd time w = elim (lookup fd w.connections) [
    | none ↦ none
    | some c ↦ some (
      tt,
      record w { connections = assign fd (record c { heart_time = some time }) w.connections },
    )
  ]

module _ {Db : Type 0} ⦃s : Services Db⦄ where
  -- if(heart_time == 0) { heart_time = getNowTime(); }
  first_beat : ℕ → Act Db (Unit {0})
  unfolding heart_time_of
  first_beat fd = do
    heart_time ← heart_time_of fd
    if heart_time == 0 then (do now ← get_now_time; set_heart_time fd now) else skip

  unfoldable pub check_heart : ℕ → Text → Act Db Bool
  unfolding first_beat heart_time_of
  check_heart fd heart = do
    first_beat fd
    if not (is_heartbeat heart) then (do close fd; pure false) else do
      now ← get_now_time
      heart_time ← heart_time_of fd
      if ltb time_out (now - heart_time)
          then (do close fd; pure false)
          else do later ← get_now_time; set_heart_time fd later; pure true
