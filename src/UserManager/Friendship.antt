-- ===== src/UserManager/Friendship.antt =====
-- Friendships in User_manager.cc.
use chatroom.Base.{
  ◌≡◌, sym, ap, ◌∙◌, Text, text, eq_text, eq_text-append, Bool, true, false, not, ◌&&◌, ◌||◌, arith,
  if◌then◌else◌, Returns, pure_step,
}
use chatroom.Redis.Documented.{Documented, Kind, sets, View, with_member}
use chatroom.RedisClient.Keys.{friend_key, user_key, ◌+:+◌}
use chatroom.RedisClient.Kinded.{Kinded, Does, sadd-Does, srem-Does}
use chatroom.RedisClient.Users.{set_user_groups, remove_user_groups}
use chatroom.World.{World, Services, services_redis}
use chatroom.Connection.Rules.{bind_redis}
use chatroom.UserManager.{add_friend, delete_friend}

-- Whoever is a friend of a user has that user as a friend.
pub record IsSymmetric (v : View) : Type 0 where
  pub both : (a b : Text) → v.member (friend_key a) b ≡ v.member (friend_key b) a

-- The pair of the two, in either order.
abbrev pub pair : Text → Text → Text → Text → Bool
pair a b x y = eq_text a x && eq_text b y || eq_text b x && eq_text a y

eq_text-friend_key : (a x : Text) → eq_text (friend_key a) (friend_key x) ≡ eq_text a x
unfolding friend_key
eq_text-friend_key a x = eq_text-append (text "user:Friend:") a x

pair_comm : (a b x y : Text) → pair a b x y ≡ pair a b y x
pair_comm a b x y = ground arith

-- Both entries, made or removed.
twice :
    (a b : Text) (there : Bool) (v : View) (x y : Text)
    → (with_member (friend_key b) a there (with_member (friend_key a) b there v)).member
        (friend_key x)
        y
      ≡ (if pair a b x y then there else v.member (friend_key x) y)
twice a b there v x y = ground (arith, eq_text-friend_key a x, eq_text-friend_key b x)

symmetric :
    (a b : Text) (there : Bool) (v v' : View)
    → IsSymmetric v
    → ((x y : Text)
        → v'.member (friend_key x) y ≡ (if pair a b x y then there else v.member (friend_key x) y))
    → IsSymmetric v'
symmetric a b there v v' c e = record {
  both = λ x y.
      e x y
      ∙ ap (λ t. if t then there else v.member (friend_key x) y) (pair_comm a b x y)
      ∙ ap (λ t. if pair a b y x then there else t) (c.both x y)
      ∙ sym (e y x);
}

changed :
    (a b : Text) (there : Bool) (v0 : View) {v1 v2 : View}
    → v1 ≡ with_member (friend_key a) b there v0
    → v2 ≡ with_member (friend_key b) a there v1
    → (x y : Text)
    → v2.member (friend_key x) y ≡ (if pair a b x y then there else v0.member (friend_key x) y)
changed a b there v0 e1 e2 x y =
    ap (λ v. v.member (friend_key x) y) (e2 ∙ ap (with_member (friend_key b) a there) e1)
    ∙ twice a b there v0 x y

module _ {Db : Type 0} ⦃s : Services Db⦄ (doc : Documented s.redis) {kind_of : Text → Kind}
    (kinds : (u : Text) → kind_of (friend_key u) ≡ sets) where
  open doc use {view}

  -- One direction of a friendship.
  befriend :
      {d : Db}
      → Kinded doc kind_of d
      → (a b : Text)
      → Does doc kind_of
          (set_user_groups (text "Friend") a b)
          d
          (not ((view d).member (friend_key a) b))
          (with_member (friend_key a) b true (view d))
  unfolding set_user_groups user_key friend_key ◌+:+◌ text
  befriend h a b = sadd-Does doc h (friend_key a) b (kinds a)

  unfriend :
      {d : Db}
      → Kinded doc kind_of d
      → (a b : Text)
      → Does doc kind_of
          (remove_user_groups (text "Friend") a b)
          d
          ((view d).member (friend_key a) b)
          (with_member (friend_key a) b false (view d))
  unfolding remove_user_groups user_key friend_key ◌+:+◌ text
  unfriend h a b = srem-Does doc h (friend_key a) b (kinds a)

  module _ {w : World Db} (kinded : Kinded doc kind_of w.db) (a b : Text) where
    -- Where the friends of each user are a set, and friendship is symmetric, addFriend comes
    -- to an end, friendship is still symmetric, and the friends are those before and the two
    -- users of each other.
    pub add_friend-IsSymmetric :
        IsSymmetric (view w.db)
        → Returns (add_friend a b) w (λ _ w'.
          IsSymmetric (view w'.db)
          × ((x y : Text)
              → (view w'.db).member (friend_key x) y
                ≡ (if pair a b x y then true else (view w.db).member (friend_key x) y)))
    unfolding add_friend
    add_friend-IsSymmetric c = bind_redis doc _ _ (befriend kinded a b) (λ d1 v1 k1.
        bind_redis doc _ _ (befriend k1 b a) (λ d2 v2 k2.
          let now = changed a b true (view w.db) v1 v2 in
          pure_step true (symmetric a b true (view w.db) (view d2) c now, now)))

    -- Where the friends of each user are a set, and friendship is symmetric, deleteFriend
    -- comes to an end, friendship is still symmetric, and the friends are those before but for
    -- the two users.
    pub delete_friend-IsSymmetric :
        IsSymmetric (view w.db)
        → Returns (delete_friend a b) w (λ _ w'.
          IsSymmetric (view w'.db)
          × ((x y : Text)
              → (view w'.db).member (friend_key x) y
                ≡ (if pair a b x y then false else (view w.db).member (friend_key x) y)))
    unfolding delete_friend
    delete_friend-IsSymmetric c = bind_redis doc _ _ (unfriend kinded a b) (λ d1 v1 k1.
        bind_redis doc _ _ (unfriend k1 b a) (λ d2 v2 k2.
          let now = changed a b false (view w.db) v1 v2 in
          pure_step true (symmetric a b false (view w.db) (view d2) c now, now)))
