-- ===== src/UserAuth/Receive.antt =====
-- User_auth_s.cc: onMessage, handleProcess and Process.
pub mod Frames
use chatroom.Base.{
  ℕ, zero, suc, ◌+◌, ◌%◌, Text, text, eq_text, Bool, true, false, List, [], ◌∷◌, ◌++◌, Option, none,
  some, length, take, drop, ltb, leb, if◌then◌else◌, ◌>>=◌, ◌>>◌, pure, skip, fault, at, assign,
  erase, nat_eq,
}
use chatroom.Protocol.{u32_mod, ntohl_bytes}
use chatroom.UserAuth.State.{
  Action, Auth, empty_auth, Serve, AuthServer, AuthServices, auth_redis, send,
}
use chatroom.UserAuth.Login.{log_in, l_check}
use chatroom.UserAuth.Register.{register_r, r_check}

-- The loop of handleProcess: every whole frame is parsed into the same message. `none`: more rounds
-- than the fuel.
unfoldable pub handle_process : (Text → Bool × Auth) → ℕ → Text → Auth → Option (Text × Auth)
handle_process parse zero buffer auth_msg = none
handle_process parse (suc fuel) buffer auth_msg =
    if leb 4 (length buffer)
    then (let len = ntohl_bytes buffer in
        let (parsed, msg) = parse (take len (drop 4 buffer)) in
        let rest = handle_process parse fuel (drop ((4 + len) % u32_mod) buffer) msg in
        if ltb (length buffer) ((len + 4) % u32_mod)
        then some (buffer, auth_msg)
        else if parsed
        then rest
        else some (buffer, msg))
    else some (buffer, auth_msg)

-- What read() gave: nothing more, some bytes, or an error.
pub data ReadResult : Type 0 where
  end_of_file read_error : ReadResult
  received : Text → ReadResult

-- strncmp(buf.data(), prefix, n) == 0, for the whole of `prefix`
abbrev begins : Text → Text → Bool
begins buf prefix = eq_text (take (length prefix) buf) prefix

module _ {Db : Type 0} ⦃s : AuthServices Db⦄ where
  unfoldable pub process : ℕ → Text → Serve Db (Unit {0})
  process cli buf =
      if begins buf (text "register")
      then send cli (text "Please enter your user_message:")
      else if begins buf (text "login")
      then send cli (text "Please enter your message:")
      else skip

  unfoldable pub on_auth : ℕ → Auth → Action → Serve Db (Unit {0})
  unfolding process
  on_auth cli auth Action.unknown = process cli auth.msg
  on_auth cli auth Action.register = register_r cli auth.req
  on_auth cli auth Action.login = log_in cli auth.loq
  on_auth cli auth Action.rverify = r_check cli auth.r_ver
  on_auth cli auth Action.lverify = l_check cli auth.l_ver
  on_auth cli auth _ = skip

  hang_up : ℕ → Serve Db (Unit {0})
  hang_up cli w =
      some (
        tt,
        record w { handle_buffers = erase cli w.handle_buffers; closed = w.closed ++ cli ∷ [] },
      )

  -- The message that handleProcess leaves, an empty one where no frame was whole.
  take_frames : ℕ → ℕ → Text → Serve Db Auth
  take_frames fuel cli chunk w =
      elim (handle_process s.parse fuel (at cli [] w.handle_buffers ++ chunk) empty_auth) [
        | none ↦ none
        | some (buffer, auth_msg) ↦
            some (auth_msg, record w { handle_buffers = assign cli buffer w.handle_buffers })
      ]

  unfoldable pub on_message : ℕ → ℕ → ReadResult → Serve Db (Unit {0})
  unfolding hang_up take_frames
  on_message fuel cli end_of_file = hang_up cli
  on_message fuel cli read_error = skip
  on_message fuel cli (received chunk) = do
    auth_msg ← take_frames fuel cli chunk
    on_auth cli auth_msg auth_msg.action
