-- ===== src/Tests/Client.antt =====
-- Examples of the client of "ann", who has a friend "bob".
use chatroom.Base.{◌≡◌, refl, Text, text, eq_text, true, false, List, [], ◌∷◌, ◌>>◌, Returns}
use chatroom.Redis.Documented.{contains}
use chatroom.Protocol.{pack}
use chatroom.Connection.Friends.{block_notice, unblock_notice}
use chatroom.FileServer.Data.{has_byte}
use chatroom.Client.State.{UserChat, ClientServices}
use chatroom.Client.Friends.{print_notice}
use chatroom.Client.FriendRequests.{quit, send_msg, unblock_friend}
use chatroom.Client.Notices.{Blocked, print_notice-Blocked, print_notice-unblocked}
use chatroom.Client.Blocking.{unblock_friend_lem}
use chatroom.Tests.{ann, bob, club, silent}

instance abbrev client_services : ClientServices
client_services = record {
  serialize = λ chat. [];
  parse = λ bytes. (true, silent);
  local_time = λ n. [];
  exists = λ path. true;
}

abbrev client_of : List Text → List Text → UserChat
client_of blocked input = record {
  username = ann;
  friends = bob ∷ [];
  friends_block = blocked;
  friends_by_block = [];
  user_groups = [];
  friend_res = [];
  friends_files = [];
  group_files = [];
  user_name = [];
  group_name = [];
  name = [];
  statue = [];
  run = true;
  group_exists = false;
  msg = [];
  screen = [];
  input = input;
  choices = [];
  sent = [];
  tasks = [];
  readings = 0;
}

print_notice-Blocked_example :
    Returns
      (print_notice (block_notice bob, club) >> send_msg 1 bob)
      (client_of [] [])
      (λ _ u'. Blocked bob (client_of [] []) u')
unfolding has_byte eq_text
print_notice-Blocked_example = print_notice-Blocked 0 bob club (client_of [] []) refl refl

print_notice-unblocked_example :
    Returns
      ((print_notice (block_notice bob, club) >> print_notice (unblock_notice bob, club))
        >> send_msg 1 bob)
      (client_of [] [])
      (λ _ u'. Blocked bob (client_of [] []) u')
unfolding has_byte eq_text
print_notice-unblocked_example = print_notice-unblocked 0 bob club club (client_of [] []) refl refl

unblock_friend_lem_example :
    Returns
      (unblock_friend 2)
      (client_of (bob ∷ []) (bob ∷ quit ∷ []))
      (λ _ u'. (contains bob u'.friends_block ≡ true) × (u'.input ≡ []) × (u'.sent ≡ pack [] ∷ []))
unfolding eq_text text
unblock_friend_lem_example =
    unblock_friend_lem 0 bob [] (client_of (bob ∷ []) (bob ∷ quit ∷ [])) refl refl refl refl
