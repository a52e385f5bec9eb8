-- ===== src/Tests.antt =====
-- Examples: the server on the Redis in memory, with one owner "ann", a friend "bob", and the group
-- "club" under the uuid "g1".
pub mod Frames
pub mod Groups
pub mod Server
pub mod Auth
pub mod Friends
pub mod Files
pub mod Client
use chatroom.Base.{
  ℕ, ◌%◌, ◌≡◌, refl, ap, ◌∙◌, Text, text, eq_text, Bool, true, false, List, [], ◌∷◌, ◌++◌, Option,
  none, some, if◌then◌else◌, text_eq, ◌==◌,
}
use chatroom.Chat.{Chat, Actions, Group}
use chatroom.Redis.Documented.{Documented, Kind, texts, hashes, sets, lists}
use chatroom.Redis.Memory.{Memory, admits, empty_memory, memory}
use chatroom.Redis.Memory.Laws.{memory-Documented, memory-view, memory-fits}
use chatroom.Connection.Ready.{Ready}
use chatroom.RedisClient.Keys.{
  user_key, group_owner, request_key, chat_key, members_key, managers_key, groups_key, online_key,
  ◌+:+◌,
}
use chatroom.Connection.Groups.{with_role, owner_role, member_role}
use chatroom.RedisClient.Kinded.{Kinded}
use chatroom.World.{World, Connection, Services}

abbrev pub ann : Text
ann = b'a' ∷ b'n' ∷ b'n' ∷ []

abbrev pub bob : Text
bob = b'b' ∷ b'o' ∷ b'b' ∷ []

abbrev pub club : Text
club = b'c' ∷ b'l' ∷ b'u' ∷ b'b' ∷ []

abbrev pub g1 : Text
g1 = b'g' ∷ b'1' ∷ []

abbrev pub idle : Connection
idle = record { worker = 0; buffer = []; heart_time = some 1 }

-- The services: a message is written as nothing, the n-th second is n, and the n-th digit is n % 16.
abbrev pub silent : Chat
silent = record { action = Actions.action_quit; group = Group.group_quit; heart = []; parts = [] }

instance abbrev pub services : Services Memory
services = record {
  redis = memory;
  serialize = λ chat. [];
  parse = λ bytes. (true, silent);
  seconds = λ n. n;
  local_time = λ n. [];
  hex_digit = λ n. n % 16;
  scan_rounds = 1;
}

-- The keys that are in use, with their kinds.
unfoldable pub held : Text → Option Kind
unfolding eq_text text group_owner ◌+:+◌ members_key managers_key groups_key request_key chat_key
    user_key
held k =
    if eq_text (group_owner ann +:+ club) k
    then some texts
    else if eq_text (members_key g1) k
    then some sets
    else if eq_text (managers_key g1) k
    then some hashes
    else if eq_text (groups_key bob) k
    then some sets
    else if eq_text (request_key (text "Response") +:+ bob) k
    then some hashes
    else if eq_text (request_key (text "Response") +:+ text "message") k
    then some hashes
    else if eq_text (chat_key (text "Friend") +:+ text "bob:ann") k
    then some lists
    else if eq_text (user_key ann) k
    then some hashes
    else none

abbrev pub or_texts : Option Kind → Kind
or_texts none = texts
or_texts (some K) = K

unfoldable pub kind_of : Text → Kind
unfolding held
kind_of k = or_texts (held k)

unfoldable pub store : List Text → Memory
unfolding held eq_text text group_owner ◌+:+◌ managers_key members_key with_role owner_role
store members = record {
  held = held;
  value = λ k. if eq_text (group_owner ann +:+ club) k then some g1 else none;
  pairs = λ k. if eq_text (managers_key g1) k then (ann, owner_role) ∷ [] else [];
  members = λ k. if eq_text (members_key g1) k then members else [];
  items = λ k. [];
}

or_texts_lem : (o : Option Kind) → admits o (or_texts o) ≡ true
or_texts_lem none = refl
or_texts_lem (some texts) = refl
or_texts_lem (some hashes) = refl
or_texts_lem (some sets) = refl
or_texts_lem (some lists) = refl

pub store-Kinded : (members : List Text) → Kinded memory-Documented kind_of (store members)
unfolding store kind_of
store-Kinded members = record {
  fit = λ k. memory-fits (store members) (kind_of k) k ∙ or_texts_lem (held k);
}

-- The server with `ann` on the socket 4 and `bob` on the socket 5, both with the first worker.
abbrev pub world_of : Memory → World Memory
world_of db = record {
  db = db;
  users = (ann, 4) ∷ (bob, 5) ∷ [];
  fds = (4, ann) ∷ (5, bob) ∷ [];
  worker_fd = (4, 0) ∷ (5, 0) ∷ [];
  workers = 0 ∷ [];
  connections = (4, idle) ∷ (5, idle) ∷ [];
  next_worker = 2;
  sent = [];
  closed = [];
  readings = 0;
  draws = 0;
}

abbrev pub world : List Text → World Memory
world members = world_of (store members)

pub ready : (members : List Text) → Ready memory-Documented kind_of (world members) ann club bob g1
unfolding store kind_of eq_text text group_owner ◌+:+◌ members_key managers_key groups_key
    request_key user_key chat_key
ready members = record {
  kinded = store-Kinded members;
  index_kind = refl;
  members_kind = refl;
  managers_kind = refl;
  groups_kind = refl;
  notices_kind = refl;
  indexed = ap (λ v. v.value (group_owner ann +:+ club)) (memory-view (store members));
}
