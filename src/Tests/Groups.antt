-- ===== src/Tests/Groups.antt =====
-- Examples of the handlers of groups: `ann` owns "club", of which `bob` is a member or not.
use chatroom.Base.{
  ℕ, ◌≡◌, refl, ap, Text, text, eq_text, true, false, not, ◌&&◌, ◌||◌, List, [], ◌∷◌, none, some,
  arith, length, Returns, lookup, text_eq, if◌then◌else◌, at, nat_eq, ◌==◌, eq_text, length-append,
}
use chatroom.Chat.{Group, Part, with_group}
use chatroom.Chat.Groups.{
  AddMember, AddGroup, AddManager, DelManager, DelMember, LeaveGroup, empty_leave_group,
  empty_add_member, empty_add_group, empty_add_manager, empty_del_manager, empty_del_member,
}
use chatroom.Redis.Documented.{Kind, texts, sets, hashes, View, is_some}
use chatroom.Redis.Memory.{Memory, empty_memory}
use chatroom.Redis.Memory.Laws.{memory-Documented, memory-view, memory-fits, memory-live}
use chatroom.RedisClient.Kinded.{Kinded}
use chatroom.RedisClient.Keys.{
  group_key, user_key, group_owner, members_key, managers_key, groups_key, ◌+:+◌,
}
use chatroom.RedisClient.Groups.{group_title}
use chatroom.World.{World, services_redis}
use chatroom.Connection.Groups.{with_role, owner_role, manager_role, member_role, add_group}
use chatroom.Connection.Groups.Creating.{add_group_new, IsFounded}
use chatroom.Connection.Managers.{add_manager, del_manager}
use chatroom.Connection.Managers.Branches.{promoted, demoted}
use chatroom.Connection.Managers.Roles.{add_manager_lem, del_manager_lem}
use chatroom.Connection.Members.{add_member, del_member, leave_group}
use chatroom.Connection.Members.Leaving.{leave_group_lem, left_as}
use chatroom.Connection.Members.Adding.{add_member_lem, answer}
use chatroom.Connection.Members.Removing.{
  remaining, was_in, del_member_owner_lem, del_member_undefined, answered,
}
use chatroom.Connection.Rules.{IsAnswer}
use chatroom.Tests.{services, ann, bob, club, g1, kind_of, store, world, world_of, ready}

abbrev view : Memory → View
view = memory-Documented.view

-- `bob` is a plain member.
abbrev crew : List Text
crew = with_role bob member_role ∷ []

abbrev w : World Memory
w = world crew

abbrev uuid : Text
uuid = g1

abbrev fd : ℕ
fd = 4

abbrev adding : AddMember
adding = record empty_add_member { username = bob; u_name = ann; g_name = club }

abbrev promoting : AddManager
promoting = record empty_add_manager { username = bob; u_name = ann; g_name = club }

abbrev demoting : DelManager
demoting = record empty_del_manager { username = bob; u_name = ann; g_name = club }

-- `ann` puts `bob` out, and a manager tries to.
abbrev removing : Text → DelMember
removing role = record empty_del_member {
  username = bob;
  u_name = ann;
  g_name = club;
  statue = role;
}

abbrev founding : AddGroup
founding = record empty_add_group { username = ann; group_name = club }

add_member_lem_example : Returns (add_member fd adding) (world []) (λ _ w'.
    ((x : Text)
      → (view w'.db).member (members_key uuid) x ≡ (
          eq_text (with_role adding.username member_role) x
          || (view (world []).db).member (members_key uuid) x))
    × ((view (world []).db).member (members_key uuid) (with_role adding.username member_role)
          ≡ false
        → (view w'.db).member (groups_key adding.username) (group_title adding.g_name adding.u_name)
          ≡ true)
    × IsAnswer fd
        (with_group Group.addmember (
          Part.add_member (
            answer adding (
              (view (world []).db).member
                (members_key uuid)
                (with_role adding.username member_role)))))
        w')
add_member_lem_example =
    add_member_lem memory-Documented kind_of (world []) fd adding uuid (ready [])

add_manager_lem_example : Returns (add_manager fd promoting) w (λ _ w'.
    ((view w'.db).field (managers_key uuid) promoting.username ≡ some manager_role)
    × ((x : Text)
        → (view w'.db).member (members_key uuid) x ≡ (
            if is_some ((view w.db).field (managers_key uuid) promoting.username)
            then (view w.db).member (members_key uuid) x
            else eq_text (with_role promoting.username manager_role) x
              || not (eq_text (with_role promoting.username member_role) x)
                && (view w.db).member (members_key uuid) x))
    × IsAnswer fd
        (with_group Group.addmanager (
          Part.add_manager (
            promoted promoting
              (is_some ((view w.db).field (managers_key uuid) promoting.username)))))
        w')
add_manager_lem_example = add_manager_lem memory-Documented kind_of w fd uuid promoting (ready crew)

del_manager_lem_example : Returns (del_manager fd demoting) w (λ _ w'.
    ((view w'.db).field (managers_key uuid) demoting.username ≡ none)
    × ((x : Text)
        → (view w'.db).member (members_key uuid) x ≡ (
            if is_some ((view w.db).field (managers_key uuid) demoting.username)
            then eq_text (with_role demoting.username member_role) x
              || not (eq_text (with_role demoting.username manager_role) x)
                && (view w.db).member (members_key uuid) x
            else (view w.db).member (members_key uuid) x))
    × IsAnswer fd
        (with_group Group.delmanager (
          Part.del_manager
            (demoted demoting (is_some ((view w.db).field (managers_key uuid) demoting.username)))))
        w')
del_manager_lem_example = del_manager_lem memory-Documented kind_of w fd uuid demoting (ready crew)

del_member_owner_lem_example : Returns (del_member fd (removing owner_role)) w (λ _ w'.
    ((x : Text)
      → (view w'.db).member (members_key uuid) x
        ≡ (remaining uuid (removing owner_role) (view w.db)).member (members_key uuid) x)
    × (was_in uuid (removing owner_role) (view w.db) ≡ true
        → ((view w'.db).member
              (groups_key (removing owner_role).username)
              (group_title (removing owner_role).g_name (removing owner_role).u_name)
            ≡ false)
          × ((view w'.db).field (managers_key uuid) (removing owner_role).username ≡ none))
    × IsAnswer fd
        (with_group Group.delmember (
          Part.del_member
            (answered (removing owner_role) (was_in uuid (removing owner_role) (view w.db)))))
        w')
del_member_owner_lem_example =
    del_member_owner_lem memory-Documented kind_of w fd uuid (removing owner_role) (ready crew) refl

del_member_undefined_example : del_member fd (removing manager_role) w ≡ none
unfolding store eq_text text managers_key members_key group_key ◌+:+◌ lookup
del_member_undefined_example =
    del_member_undefined memory-Documented kind_of w fd uuid (removing manager_role) (ready crew)
      refl (ap (λ v. v.field (managers_key g1) bob) (memory-view (store crew)))

abbrev leaving : LeaveGroup
leaving = record empty_leave_group { u_name = ann; g_name = club; statue = member_role }

leave_group_lem_example : Returns (leave_group 5 leaving) w (λ _ w'.
    ((x : Text)
      → (view w'.db).member (members_key g1) x ≡ (
          not (eq_text (with_role (at 5 [] w.fds) leaving.statue) x)
          && (view w.db).member (members_key g1) x))
    × ((view w.db).member (members_key g1) (with_role (at 5 [] w.fds) leaving.statue) ≡ true
        → ((view w'.db).member
              (groups_key (at 5 [] w.fds))
              (group_title leaving.g_name leaving.u_name)
            ≡ false)
          × ((view w'.db).field (managers_key g1) (at 5 [] w.fds) ≡ none))
    × IsAnswer 5
        (with_group Group.leavegroup (
          Part.leave_group (
            left_as
              ((view w.db).member (members_key g1) (with_role (at 5 [] w.fds) leaving.statue)))))
        w')
unfolding lookup
leave_group_lem_example = leave_group_lem memory-Documented kind_of w 5 g1 leaving (ready crew)

-- The kinds of the keys of a new group, told by their lengths.
unfoldable new_kind : Text → Kind
unfolding eq_text groups_key user_key text
new_kind k =
    if length k == 42 || length k == 51
    then hashes
    else if length k == 50 || eq_text (groups_key ann) k
    then sets
    else texts

group_kind : (u : Text) → length u ≡ 36 → new_kind (group_key u) ≡ hashes
unfolding new_kind group_key text
group_kind u h = ground (arith, h)

members_kind : (u : Text) → length u ≡ 36 → new_kind (members_key u) ≡ sets
unfolding new_kind members_key group_key ◌+:+◌ text
members_kind u h = ground (arith, h, length-append u (text ":members"))

managers_kind : (u : Text) → length u ≡ 36 → new_kind (managers_key u) ≡ hashes
unfolding new_kind managers_key group_key ◌+:+◌ text
managers_kind u h = ground (arith, h, length-append u (text ":managers"))

new-Kinded : Kinded memory-Documented new_kind empty_memory
new-Kinded = record { fit = λ k. memory-fits empty_memory (new_kind k) k }

add_group_new_example : Returns (add_group fd founding) (world_of empty_memory) (λ _ w'.
    ((uuid : Text) × (length uuid ≡ 36)
      × IsFounded uuid founding.username founding.group_name (view w'.db))
    × IsAnswer fd
        (with_group Group.addgroup (
          Part.add_group (record empty_add_group {
            time = services.local_time (world_of empty_memory).readings;
            msg = text "\u{1b}[32m群聊创建成功!\u{1b}[0m";
            username = founding.username;
            group_name = founding.group_name;
            success = true;
          })))
        w')
unfolding new_kind groups_key user_key text eq_text group_owner ◌+:+◌
add_group_new_example =
    add_group_new memory-Documented new_kind (world_of empty_memory) fd founding new-Kinded
      (λ n. omega arith) group_kind members_kind managers_kind refl refl
      (memory-live empty_memory _)
