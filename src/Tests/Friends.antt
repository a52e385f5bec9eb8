-- ===== src/Tests/Friends.antt =====
-- Examples of friendships, in an empty database.
use chatroom.Base.{◌≡◌, refl, sym, ap, ◌∙◌, Text, true, false, if◌then◌else◌, Returns}
use chatroom.Redis.Documented.{Kind, sets}
use chatroom.Redis.Memory.{empty_memory}
use chatroom.Redis.Memory.Laws.{memory-Documented, memory-view, memory-fits}
use chatroom.RedisClient.Keys.{friend_key}
use chatroom.RedisClient.Kinded.{Kinded}
use chatroom.UserManager.{add_friend, delete_friend}
use chatroom.UserManager.Friendship.{
  IsSymmetric, pair, add_friend-IsSymmetric, delete_friend-IsSymmetric,
}
use chatroom.Tests.{services, ann, bob, world_of}

abbrev all_sets : Text → Kind
all_sets k = sets

empty-Kinded : Kinded memory-Documented all_sets empty_memory
empty-Kinded = record { fit = λ k. memory-fits empty_memory sets k }

alone : IsSymmetric (memory-Documented.view (world_of empty_memory).db)
alone = record {
  both = λ a b.
      ap (λ v. v.member (friend_key a) b) (memory-view empty_memory)
      ∙ sym (ap (λ v. v.member (friend_key b) a) (memory-view empty_memory));
}

add_friend-IsSymmetric_example : Returns (add_friend ann bob) (world_of empty_memory) (λ _ w'.
    IsSymmetric (memory-Documented.view w'.db)
    × ((x y : Text)
        → (memory-Documented.view w'.db).member (friend_key x) y ≡ (
            if pair ann bob x y
            then true
            else (memory-Documented.view (world_of empty_memory).db).member (friend_key x) y)))
add_friend-IsSymmetric_example =
    add_friend-IsSymmetric memory-Documented (λ u. refl) empty-Kinded ann bob alone

delete_friend-IsSymmetric_example : Returns (delete_friend ann bob) (world_of empty_memory) (λ _ w'.
    IsSymmetric (memory-Documented.view w'.db)
    × ((x y : Text)
        → (memory-Documented.view w'.db).member (friend_key x) y ≡ (
            if pair ann bob x y
            then false
            else (memory-Documented.view (world_of empty_memory).db).member (friend_key x) y)))
delete_friend-IsSymmetric_example =
    delete_friend-IsSymmetric memory-Documented (λ u. refl) empty-Kinded ann bob alone
