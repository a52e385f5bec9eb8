-- ===== src/FileClient/State.antt =====
-- FTP_client.h: the state of a thread that sends or fetches one file, and what it takes from outside.
use chatroom.Base.{
  ℕ, Text, Bool, true, false, List, [], ◌∷◌, ◌++◌, Option, none, some, M, if◌then◌else◌, ◌==◌,
  lookup, assign, text_eq, ltb, length,
}
use chatroom.FileServer.State.{Recv}
use chatroom.FileClient.Passive.{open_passive_mode}
use chatroom.Client.State.{Task}

-- The n-th text of Protocol::GetNowTime, the directory of get_directory_path, and whether a file
-- can be created.
pub record FileServices : Type 0 where
  pub local_time : ℕ → Text
  pub directory : Text
  pub can_create : Text → Bool

-- `arr` is the C string in the global buffer. What the calls of recv on the control socket, and of
-- recv and send on the other will come to: an answer is `none` at an error, and a blocking send
-- takes all or fails.
pub record FtpClient : Type 0 where
  pub task : Task
  pub arr : Text
  pub link : Option (Text × ℕ)
  pub disk : List (Text × Text)
  pub said : List Text
  pub pushed : List Text
  pub screen : List Text
  pub answers : List (Option Text)
  pub recvs : List Recv
  pub sends : List Bool
  pub readings : ℕ

abbrev pub Run : Type 0 → Type 0
Run A = M FtpClient A

-- Up to the first zero.
unfoldable pub c_text : Text → Text
c_text [] = []
c_text (c ∷ s) = let rest = c_text s in if c == 0 then [] else c ∷ rest

-- FTPClient::Send on the control socket; its result is not used.
unfoldable pub send_line : Text → Run (Unit {0})
send_line msg w = some (tt, record w { said = w.said ++ msg ∷ [] })

-- FTPClient::Recive: of 1024 bytes the zero behind them would be written past the buffer.
unfoldable pub recive : Run Bool
unfolding c_text
recive w = elim w.answers [
  | [] ↦ none
  | answer ∷ rest ↦ elim answer [
    | none ↦ some (false, record w { answers = rest })
    | some bytes ↦ elim (ltb (length bytes) 1024) [
      | true ↦ some (true, record w { answers = rest; arr = c_text bytes })
      | false ↦ none
    ]
  ]
]

-- FTPClient::openPassiveMode and the connection to the address; a failure is only printed.
unfoldable pub connect_link : Run (Unit {0})
connect_link w = elim (open_passive_mode w.arr) [
  | none ↦ none
  | some address ↦ some (tt, record w { link = some address })
]

unfoldable pub get_arr : Run Text
get_arr w = some (w.arr, w)

unfoldable pub get_task : Run Task
get_task w = some (w.task, w)

unfoldable pub show : Text → Run (Unit {0})
show line w = some (tt, record w { screen = w.screen ++ line ∷ [] })

unfoldable pub read_local : Text → Run (Option Text)
read_local path w = some (lookup path w.disk, w)

unfoldable pub write_local : Text → Text → Run (Unit {0})
write_local path bytes w = some (tt, record w { disk = assign path bytes w.disk })
