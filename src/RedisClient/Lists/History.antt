-- ===== src/RedisClient/Lists/History.antt =====
-- RedisClient.cc: a chat history keeps the last hundred messages.
use chatroom.Base.{
  ℕ, zero, suc, ◌+◌, ◌-◌, ◌≤◌, ◌≡◌, refl, sym, ap, ◌∙◌, Text, List, [], ◌∷◌, ◌++◌, length, drop,
  length-append, length-drop, append-nil, append_assoc, arith, Returns, eq_text, eq_text_refl,
  if◌then◌else◌, bind_after, bind_bind, bind_pure, pure_step, skip, for_each, ◌>>◌, Returns-mono,
}
use chatroom.Redis.{Redis}
use chatroom.Redis.Documented.{Documented, Kind, View, lists, last_entries}
use chatroom.RedisClient.Keys.{chat_key, ◌+:+◌}
use chatroom.RedisClient.Kinded.{Kinded}
use chatroom.RedisClient.Effects.{set_chat_list-Does}
use chatroom.RedisClient.Lists.{set_chat_list}

module _ {A : Type 0} where
  drop_nil : (n : ℕ) → drop {A = A} n [] ≡ []
  drop_nil zero = refl
  drop_nil (suc n) = refl

  drop-drop : (j k : ℕ) (xs : List A) → drop j (drop k xs) ≡ drop (k + j) xs
  drop-drop j zero xs = ap (λ n. drop n xs) (omega arith)
  drop-drop j (suc k) [] = drop_nil j ∙ sym (drop_nil (suc k + j))
  drop-drop j (suc k) (x ∷ xs) =
      drop-drop j k xs ∙ ap (λ n. drop n (x ∷ xs)) {x = suc (k + j)} (omega arith)

  drop_within : (k : ℕ) (xs ys : List A) → k ≤ length xs → drop k (xs ++ ys) ≡ drop k xs ++ ys
  drop_within zero xs ys h = refl
  drop_within (suc k) [] ys h = ground arith
  drop_within (suc k) (x ∷ xs) ys h = drop_within k xs ys (omega arith)

last_entries-length : (n : ℕ) (xs : List Text) → length (last_entries n xs) ≤ n
last_entries-length n xs = omega (arith, length-drop (length xs - n) xs)

last_entries_whole : (n : ℕ) (xs : List Text) → length xs ≤ n → last_entries n xs ≡ xs
last_entries_whole n xs h = let none_lost : length xs - n ≡ 0 = omega arith in rw none_lost refl

-- Entries that were cut off before do not come back.
last_entries-append :
    (n : ℕ) (xs ys : List Text)
    → last_entries n (last_entries n xs ++ ys) ≡ last_entries n (xs ++ ys)
last_entries-append n xs ys =
    let k = length xs - n in
    let same : drop k xs ++ ys ≡ drop k (xs ++ ys) = sym (drop_within k xs ys (omega arith)) in
    ap (last_entries n) same
    ∙ drop-drop (length (drop k (xs ++ ys)) - n) k (xs ++ ys)
    ∙ ap (λ j. drop j (xs ++ ys)) (omega (arith, length-drop k (xs ++ ys), length-append xs ys))

-- The history that `set_name` has among those of `username`.
abbrev pub history : View → Text → Text → List Text
history v username set_name = v.items (chat_key username +:+ set_name)

module _ {Db : Type 0} ⦃r : Redis Db⦄ (doc : Documented r) {kind_of : Text → Kind}
    (username set_name : Text) (kind : kind_of (chat_key username +:+ set_name) ≡ lists) where
  open doc use {view}

  -- Where a history is a list of at most a hundred messages, then after any messages were added
  -- to it one by one it holds the last hundred of those before and those added.
  pub set_chat_list-history :
      (msgs : List Text) (d : Db)
      → Kinded doc kind_of d
      → length (history (view d) username set_name) ≤ 100
      → Returns (for_each msgs (λ msg. set_chat_list username set_name msg >> skip)) d (λ _ d'.
        history (view d') username set_name
        ≡ last_entries 100 (history (view d) username set_name ++ msgs))
  unfolding for_each
  set_chat_list-history [] d h short = pure_step tt (
      sym (
        ap (last_entries 100) (append-nil (history (view d) username set_name))
        ∙ last_entries_whole 100 _ short))
  set_chat_list-history (msg ∷ msgs) d h short = bind_bind _ _ _ (
      bind_after _ _ _ (set_chat_list-Does doc h username set_name msg kind) (λ _ d1 after.
        bind_pure _ _ (
          let now : history (view d1) username set_name
              ≡ last_entries 100 (history (view d) username set_name ++ msg ∷ []) =
            ap (λ v. v.items (chat_key username +:+ set_name)) after.1 ∙ written _ in
          Returns-mono
            (set_chat_list-history msgs d1 after.2
              (rw now (last_entries-length 100 (history (view d) username set_name ++ msg ∷ []))))
            (λ _ d2 e.
              e
              ∙ ap (λ xs. last_entries 100 (xs ++ msgs)) now
              ∙ last_entries-append 100 (history (view d) username set_name ++ msg ∷ []) msgs
              ∙ ap (last_entries 100)
                  (append_assoc (history (view d) username set_name) (msg ∷ []) msgs)))))
    where
      written :
          (xs : List Text)
          → (if eq_text (chat_key username +:+ set_name) (chat_key username +:+ set_name)
              then xs
              else history (view d) username set_name)
            ≡ xs
      written xs = rw (eq_text_refl (chat_key username +:+ set_name)) refl
