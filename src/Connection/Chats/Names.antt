-- ===== src/Connection/Chats/Names.antt =====
-- The name under which connection.cc keeps the history of two friends.
use chatroom.Base.{
  ◌≡◌, refl, Text, gt_text, eq_text, [], ◌∷◌, arith, eq_text_sound, Bool-cases, inl, inr, not, ◌&&◌,
}
use chatroom.Connection.Chats.{pair_name}

-- Of two different names exactly one is the greater.
gt_text-flip : (a b : Text) → gt_text b a ≡ (not (gt_text a b) && not (eq_text a b))
unfolding gt_text eq_text
gt_text-flip [] [] = refl
gt_text-flip [] (y ∷ b) = refl
gt_text-flip (x ∷ a) [] = refl
gt_text-flip (x ∷ a) (y ∷ b) = ground (arith, gt_text-flip a b)

-- The history of two friends has the same name whichever of them is named first.
pub pair_name_comm : (a b : Text) → pair_name a b ≡ pair_name b a
unfolding pair_name
pair_name_comm a b = elim (Bool-cases (eq_text a b)) [
  | inl same ↦ rw (eq_text_sound a b same) refl
  | inr other ↦ ground (arith, gt_text-flip a b)
]
