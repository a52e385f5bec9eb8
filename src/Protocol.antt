-- ===== src/Protocol.antt =====
-- src/tools/protocol.cc: frames of a four-byte length, most significant byte first, and a payload.
pub mod Framing
pub mod Uuid
use chatroom.Base.{
  ℕ, zero, suc, ◌+◌, ◌*◌, ◌/◌, ◌%◌, Text, text, eq_text, Bool, true, false, List, [], ◌∷◌, ◌++◌,
  Option, none, some, length, take, drop, ltb, leb, if◌then◌else◌,
}

-- The values of `uint32_t`.
abbrev pub u32_mod : ℕ
u32_mod = 0x1_0000_0000

-- The bytes of htonl(n), as `memcpy` lays them out.
unfoldable pub htonl_bytes : ℕ → Text
htonl_bytes n =
    (n / 0x100_0000 % 0x100) ∷ (n / 0x1_0000 % 0x100) ∷ (n / 0x100 % 0x100) ∷ (n % 0x100) ∷ []

-- ntohl of the first four bytes
unfoldable pub ntohl_bytes : Text → ℕ
ntohl_bytes (a ∷ b ∷ c ∷ d ∷ rest) = ((a * 0x100 + b) * 0x100 + c) * 0x100 + d
ntohl_bytes _ = 0

unfoldable pub pack : Text → Text
unfolding htonl_bytes
pack payload = htonl_bytes (length payload % u32_mod) ++ payload

unfoldable pub is_heartbeat : Text → Bool
unfolding eq_text text
is_heartbeat msg = eq_text msg (text "ping")

module _ {Msg : Type 0} where
  abbrev pub push_frame : Msg → Option (List Msg × Text) → Option (List Msg × Text)
  push_frame msg none = none
  push_frame msg (some (msgs, buffer)) = some (msg ∷ msgs, buffer)

  -- One round of the loop of readMessage: `unpack`, and the rounds after it.
  abbrev pub round :
      (Text → Option (List Msg × Text)) → Bool × Text × Msg → Option (List Msg × Text)
  round later (true, buffer, msg) = push_frame msg (later buffer)
  round later (false, buffer, msg) = some ([], buffer)

-- `parse` is the generated `ParseFromString`: whether it succeeded, and the message it left.
module _ {Msg : Type 0} (parse : Text → Bool × Msg) where
  -- A failed parse is only logged.
  unfoldable pub parse_msg : Text → Msg
  parse_msg msg = (parse msg).1

  -- The result, the buffer and the message after the call. `len + 4` wraps around.
  unfoldable pub unpack : Text → Msg → Bool × Text × Msg
  unfolding ntohl_bytes parse_msg
  unpack buffer chat_msg =
      if leb 4 (length buffer)
      then (let len = ntohl_bytes buffer in
          if ltb (length buffer) ((len + 4) % u32_mod)
          then (false, buffer, chat_msg)
          else (true, drop ((4 + len) % u32_mod) buffer, parse_msg (take len (drop 4 buffer))))
      else (false, buffer, chat_msg)

  -- The loop `while(1) { Chat chat; if(!unpack(buffer, chat)) break; ... }` of readMessage: the
  -- messages that it hands on and what stays in the buffer. `none`: more rounds than the fuel.
  unfoldable pub frames : Msg → ℕ → Text → Option (List Msg × Text)
  frames fresh zero buffer = none
  frames fresh (suc fuel) buffer = round (frames fresh fuel) (unpack buffer fresh)
