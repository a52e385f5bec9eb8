-- ===== src/RedisClient/Keys/Apart.antt =====
-- Keys of different families, and of one group, are different keys.
use chatroom.Base.{◌≡◌, refl, ◌∙◌, Text, text, eq_text, eq_text-append, false, [], ◌∷◌, ◌++◌, arith}
use chatroom.RedisClient.Keys.{
  group_key, group_owner, request_key, ◌+:+◌, members_key, managers_key, groups_key,
}

eq_text-longer : (s t : Text) (c : _) → eq_text s (s ++ c ∷ t) ≡ false
unfolding eq_text
eq_text-longer [] t c = refl
eq_text-longer (x ∷ s) t c = ground (arith, eq_text-longer s t c)

module _ (n u a b : Text) where
  pub groups-members : eq_text (groups_key n) (members_key u) ≡ false
  unfolding eq_text groups_key members_key
  groups-members = refl

  pub groups-managers : eq_text (groups_key n) (managers_key u) ≡ false
  unfolding eq_text groups_key managers_key
  groups-managers = refl

  pub members-groups : eq_text (members_key u) (groups_key n) ≡ false
  unfolding eq_text groups_key members_key
  members-groups = refl

  pub requests-managers : eq_text (request_key a +:+ b) (managers_key u) ≡ false
  unfolding eq_text request_key ◌+:+◌ managers_key
  requests-managers = refl

  pub owner-members : eq_text (group_owner a +:+ b) (members_key u) ≡ false
  unfolding eq_text group_owner ◌+:+◌ members_key
  owner-members = refl

  pub owner-managers : eq_text (group_owner a +:+ b) (managers_key u) ≡ false
  unfolding eq_text group_owner ◌+:+◌ managers_key
  owner-managers = refl

  pub owner-groups : eq_text (group_owner a +:+ b) (groups_key n) ≡ false
  unfolding eq_text group_owner ◌+:+◌ groups_key
  owner-groups = refl

  pub group-groups : eq_text (group_key u) (groups_key n) ≡ false
  unfolding eq_text group_key groups_key
  group-groups = refl

  pub managers-groups : eq_text (managers_key u) (groups_key n) ≡ false
  unfolding eq_text managers_key groups_key
  managers-groups = refl

  pub managers-owner : eq_text (managers_key u) (group_owner a +:+ b) ≡ false
  unfolding eq_text managers_key group_owner ◌+:+◌
  managers-owner = refl

  pub members-owner : eq_text (members_key u) (group_owner a +:+ b) ≡ false
  unfolding eq_text members_key group_owner ◌+:+◌
  members-owner = refl

  pub groups-owner : eq_text (groups_key n) (group_owner a +:+ b) ≡ false
  unfolding eq_text groups_key group_owner ◌+:+◌
  groups-owner = refl

module _ (u : Text) where
  pub members-managers : eq_text (members_key u) (managers_key u) ≡ false
  unfolding eq_text members_key managers_key
  members-managers =
      eq_text-append (text "group:") (u ++ text ":members") (u ++ text ":managers")
      ∙ eq_text-append u (text ":members") (text ":managers")

  pub managers-members : eq_text (managers_key u) (members_key u) ≡ false
  unfolding eq_text members_key managers_key
  managers-members =
      eq_text-append (text "group:") (u ++ text ":managers") (u ++ text ":members")
      ∙ eq_text-append u (text ":managers") (text ":members")

  pub group-members : eq_text (group_key u) (members_key u) ≡ false
  unfolding eq_text group_key members_key
  group-members = eq_text-longer (group_key u) (text "members") b':'

  pub group-managers : eq_text (group_key u) (managers_key u) ≡ false
  unfolding eq_text group_key managers_key
  group-managers = eq_text-longer (group_key u) (text "managers") b':'
