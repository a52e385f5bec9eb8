-- ===== src/Protocol/Uuid.antt =====
-- Protocol::generate_uuid of src/tools/protocol.cc.
pub mod Shape
use chatroom.Base.{
  ℕ, zero, suc, ◌+◌, ◌-◌, ◌==◌, Text, ltb, List, [], ◌∷◌, ◌++◌, ◌||◌, if◌then◌else◌, ◌>>=◌, pure,
}
use chatroom.World.{Act, Services, draw_digit}

-- std::hex << d, for one digit
unfoldable pub hex_char : ℕ → ℕ
hex_char d = if ltb d 10 then b'0' + d else b'a' + (d - 10)

unfoldable pub dash_before : ℕ → Text
dash_before i = if i == 8 || (i == 12 || (i == 16 || i == 20)) then b'-' ∷ [] else []

module _ {Db : Type 0} ⦃s : Services Db⦄ where
  -- for(int i = ...; i < 32; i++), with the rounds that are left
  unfoldable pub uuid_rounds : ℕ → ℕ → Text → Act Db Text
  uuid_rounds zero i ss = pure ss
  uuid_rounds (suc left) i ss = do
    d ← draw_digit
    uuid_rounds left (i + 1) (ss ++ (dash_before i ++ hex_char d ∷ []))

  unfoldable pub generate_uuid : Act Db Text
  generate_uuid = uuid_rounds 32 0 []
