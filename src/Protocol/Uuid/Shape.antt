-- ===== src/Protocol/Uuid/Shape.antt =====
-- The text that generate_uuid of src/tools/protocol.cc makes.
use mathlib.Core.Path.{subst}
use chatroom.Base.{
  Bool, true, ◌&&◌, ◌==◌, ==_iff, Bool-cases, inl, inr, ◌≡◌, refl, ap, ◌∙◌, sym, ℕ, zero, suc, ◌+◌,
  ◌<◌, Text, text, [], ◌∷◌, ◌++◌, append-nil, append_assoc, drop, length, arith, Returns,
  Returns-mono, bind_step, pure_step,
}
use chatroom.World.{World, Services, draw_digit}
use chatroom.Protocol.Uuid.{hex_char, dash_before, uuid_rounds, generate_uuid}

abbrev first : Text → ℕ
first [] = 0
first (c ∷ s) = c

-- A hexadecimal digit in lower case.
abbrev hexit : ℕ → ℕ
hexit d = first (drop d (text "0123456789abcdef"))

-- A group of `count` digits, of which the first is the one with the number `start`.
abbrev pub group : (ℕ → ℕ) → ℕ → ℕ → Text
group digit start zero = []
group digit start (suc count) = hexit (digit start) ∷ group digit (start + 1) count

-- Groups of 8, 4, 4, 4 and 12 digits, with a dash between two groups.
abbrev pub uuid_of : (ℕ → ℕ) → Text
uuid_of digit =
    group digit 0 8
    ++ (b'-' ∷ group digit 8 4
        ++ (b'-' ∷ group digit 12 4 ++ (b'-' ∷ group digit 16 4 ++ (b'-' ∷ group digit 20 12))))

every_below : (ℕ → Bool) → ℕ → Bool
every_below p zero = true
every_below p (suc n) = p n && every_below p n

every_below-at : (p : ℕ → Bool) (n d : ℕ) → every_below p n ≡ true → d < n → p d ≡ true
unfolding every_below
every_below-at p zero d h l = absurd (omega arith)
every_below-at p (suc n) d h l = elim (Bool-cases (d == n)) [
  | inl e ↦ subst (λ k. p k ≡ true) (sym ((==_iff d n).0 e)) (ground (arith, h))
  | inr ne ↦ every_below-at p n d (ground (arith, h)) (ground arith)
]

hex_char-hexit : (d : ℕ) → d < 16 → hex_char d ≡ hexit d
unfolding every_below hex_char text
hex_char-hexit d h = (==_iff _ _).0 (every_below-at (λ k. hex_char k == hexit k) 16 d refl h)

-- What the rounds that are left append.
written : (ℕ → ℕ) → ℕ → ℕ → Text
written digit zero i = []
written digit (suc left) i = (dash_before i ++ hexit (digit i) ∷ []) ++ written digit left (i + 1)

module _ {Db : Type 0} ⦃s : Services Db⦄ (small : (n : ℕ) → s.hex_digit n < 16) where
  uuid_rounds_lem :
      (base left i : ℕ) (ss : Text) (w : World Db)
      → w.draws ≡ base + i
      → Returns (uuid_rounds left i ss) w (λ u w'.
        (u ≡ ss ++ written (λ k. s.hex_digit (base + k)) left i)
        × (w' ≡ record w { draws = w.draws + left }))
  unfolding uuid_rounds draw_digit written
  uuid_rounds_lem base zero i ss w e =
      pure_step ss (sym (append-nil ss), ap (λ n. record w { draws = n }) (omega arith))
  uuid_rounds_lem base (suc left) i ss w e =
      let d = s.hex_digit w.draws in
      let grown = ss ++ (dash_before i ++ hex_char d ∷ []) in
      let rest = written (λ k. s.hex_digit (base + k)) left (i + 1) in
      bind_step draw_digit _ _ _ refl (
        Returns-mono (uuid_rounds_lem base left (i + 1) grown _ (omega (arith, e))) (λ u w' k. (
          k.0
              ∙ append_assoc ss (dash_before i ++ hex_char d ∷ []) rest
              ∙ ap (λ c. ss ++ ((dash_before i ++ c ∷ []) ++ rest))
                  (hex_char-hexit d (small w.draws) ∙ ap (λ n. hexit (s.hex_digit n)) e),
          k.1 ∙ ap (λ n. record w { draws = n }) (omega arith),
        )))

  -- Where the digits drawn are below 16, generate_uuid comes to an end with the next 32 digits
  -- drawn, in their order, each as the hexadecimal digit in lower case that it names, in groups
  -- of 8, 4, 4, 4 and 12 with a dash between two groups, which are 36 bytes; it has drawn 32
  -- digits and changed nothing else.
  pub generate_uuid_lem :
      (w : World Db)
      → Returns generate_uuid w (λ u w'.
        (u ≡ uuid_of (λ k. s.hex_digit (w.draws + k)))
        × (length u ≡ 36)
        × (w' ≡ record w { draws = w.draws + 32 }))
  unfolding generate_uuid written dash_before
  generate_uuid_lem w =
      Returns-mono (uuid_rounds_lem w.draws 32 0 [] w (omega arith))
        (λ u w' k. (k.0, ap length k.0, k.1))
