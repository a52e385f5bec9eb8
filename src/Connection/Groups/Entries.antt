-- ===== src/Connection/Groups/Entries.antt =====
-- How connection.cc takes a member's name and role from an entry of the set of members.
use chatroom.Base.{
  ◌≡◌, refl, ◌∙◌, ℕ, suc, ==_refl, Text, text, [], ◌∷◌, ◌++◌, none, some, arith, length, take, drop,
  take-append,
}
use chatroom.RedisClient.Lists.{rfind, before_colon, after_colon}
use chatroom.Connection.Groups.{with_role}

rfind_last : (c : ℕ) (s t : Text) → rfind c t ≡ none → rfind c (s ++ c ∷ t) ≡ some (length s)
unfolding rfind
rfind_last c [] t h = ground (arith, h, ==_refl c)
rfind_last c (x ∷ s) t h = rw (rfind_last c s t h) refl

drop-suc : (s : Text) (c : ℕ) (t : Text) → drop (suc (length s)) (s ++ c ∷ t) ≡ t
drop-suc [] c t = refl
drop-suc (x ∷ s) c t = drop-suc s c t

before_colon-some : (s : Text) (pos : ℕ) → rfind b':' s ≡ some pos → before_colon s ≡ take pos s
unfolding before_colon
before_colon-some s pos h = ground (arith, h)

after_colon-some : (s : Text) (pos : ℕ) → rfind b':' s ≡ some pos → after_colon s ≡ drop (suc pos) s
unfolding after_colon
after_colon-some s pos h = ground (arith, h)

-- An entry of the members, made of a name and of a role without a colon, falls into that name and
-- that role, also where the name has colons.
pub colon-with_role :
    (username role : Text)
    → rfind b':' role ≡ none
    → (before_colon (with_role username role) ≡ username)
      × (after_colon (with_role username role) ≡ role)
unfolding with_role text
colon-with_role username role h =
    let at_end : rfind b':' (username ++ b':' ∷ role) ≡ some (length username) =
      rfind_last b':' username role h in
    (
      before_colon-some (username ++ b':' ∷ role) (length username) at_end
          ∙ take-append username (b':' ∷ role),
      after_colon-some (username ++ b':' ∷ role) (length username) at_end
          ∙ drop-suc username b':' role,
    )
