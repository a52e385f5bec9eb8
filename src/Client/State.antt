-- ===== src/Client/State.antt =====
-- User_chat.h: the fields of the client, the screen, the keyboard and the socket.
use chatroom.Base.{
  ℕ, suc, Text, eq_text, Bool, List, [], ◌∷◌, ◌++◌, none, some, M, if◌then◌else◌, text_eq, at,
  assign,
}
use chatroom.Redis.Documented.{contains}
use chatroom.Chat.{Chat}
use chatroom.Protocol.{pack}

-- The generated protobuf code, the n-th text of Protocol::GetNowTime, and whether a path exists.
pub record ClientServices : Type 0 where
  pub serialize : Chat → Text
  pub parse : Text → Bool × Chat
  pub local_time : ℕ → Text
  pub exists : Text → Bool

-- What a thread with an FTPClient was started for.
pub record Task : Type 0 where
  pub decide : Text
  pub from_name : Text
  pub to_name : Text
  pub path : Text
  pub file_name : Text

-- The sets hold each name once, in an order that the source does not rely on.
pub record UserChat : Type 0 where
  pub username : Text
  pub friends : List Text
  pub friends_block : List Text
  pub friends_by_block : List Text
  pub user_groups : List Text
  pub friend_res : List Text
  pub friends_files : List (Text × List Text)
  pub group_files : List (Text × List Text)
  -- the group that the user has entered, and the role there
  pub user_name : Text
  pub group_name : Text
  pub name : Text
  pub statue : Text
  pub run : Bool
  pub group_exists : Bool
  -- the bytes that were received and not yet taken
  pub msg : Text
  -- the lines on the screen, and those that the user will type
  pub screen : List Text
  pub input : List Text
  -- the numbers that std::cin >> will read
  pub choices : List ℕ
  -- the frames that were sent, and the transfers that were started
  pub sent : List Text
  pub tasks : List Task
  pub readings : ℕ

abbrev pub Ui : Type 0 → Type 0
Ui A = M UserChat A

-- A thread that runs FTPClient::init for the task
unfoldable pub start : Task → Ui (Unit {0})
start task u = some (tt, record u { tasks = u.tasks ++ task ∷ [] })

-- set.insert(x) and set.erase(x)
unfoldable pub insert : Text → List Text → List Text
insert x xs = if contains x xs then xs else xs ++ x ∷ []

unfoldable pub remove : Text → List Text → List Text
remove x [] = []
remove x (y ∷ ys) = let rest = remove x ys in if eq_text y x then rest else y ∷ rest

-- map[k].push_back(v)
unfoldable pub push : Text → Text → List (Text × List Text) → List (Text × List Text)
push k v m = assign k (at k [] m ++ v ∷ []) m

-- std::cout << line << std::endl
unfoldable pub say : Text → Ui (Unit {0})
say line u = some (tt, record u { screen = u.screen ++ line ∷ [] })

-- std::getline(std::cin, line): `none` is a user who types nothing more.
unfoldable pub ask : Ui Text
ask u = elim u.input [ [] ↦ none | line ∷ rest ↦ some (line, record u { input = rest }) ]

unfoldable pub ask_number : Ui ℕ
ask_number u = elim u.choices [ [] ↦ none | n ∷ rest ↦ some (n, record u { choices = rest }) ]

-- A field, and a change of the fields.
unfoldable pub get : {A : Type 0} → (UserChat → A) → Ui A
get f u = some (f u, u)

unfoldable pub change : (UserChat → UserChat) → Ui (Unit {0})
change f u = some (tt, f u)

module _ ⦃s : ClientServices⦄ where
  -- std::filesystem::exists
  unfoldable pub path_exists : Text → Ui Bool
  path_exists path u = some (s.exists path, u)

  -- chat.SerializeToString(&msg); Send(msg), which packs it; an error of send is only printed.
  unfoldable pub send : Chat → Ui (Unit {0})
  send chat u = some (tt, record u { sent = u.sent ++ pack (s.serialize chat) ∷ [] })

  unfoldable pub now : Ui Text
  now u = some (s.local_time u.readings, record u { readings = suc u.readings })
