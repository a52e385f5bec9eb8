-- ===== src/UserAuth/Codes/Digits.antt =====
-- The verification code of User_auth_s.cc.
use chatroom.Base.{
  ◌≡◌, refl, ℕ, zero, suc, ◌+◌, ◌<◌, ◌≤◌, Text, [], ◌∷◌, ◌++◌, length, length-append, arith,
  Returns, Returns-mono, bind_step, pure_step,
}
use chatroom.UserAuth.State.{AuthServer, AuthServices, draw_digit}
use chatroom.UserAuth.Codes.{generate_ver, code_rounds}

-- Every byte is a decimal digit.
abbrev pub AllDigits : Text → Type 0
AllDigits [] = Unit
AllDigits (c ∷ code) = ((b'0' ≤ c) × (c ≤ b'9')) × AllDigits code

AllDigits-append : (a b : Text) → AllDigits a → AllDigits b → AllDigits (a ++ b)
AllDigits-append [] b h k = k
AllDigits-append (c ∷ a) b h k = (h.0, AllDigits-append a b h.1 k)

module _ {Db : Type 0} ⦃s : AuthServices Db⦄ (digit : (n : ℕ) → s.decimal_digit n < 10) where
  code_rounds_lem :
      (left : ℕ) (code : Text) (w : AuthServer Db)
      → AllDigits code
      → Returns
          (code_rounds left code)
          w
          (λ c w'. (length c ≡ length code + left) × AllDigits c × (w'.draws ≡ w.draws + left))
  unfolding code_rounds draw_digit
  code_rounds_lem zero code w h = pure_step code (omega arith, h, omega arith)
  code_rounds_lem (suc left) code w h = bind_step draw_digit _ _ _ refl (
      Returns-mono
        (code_rounds_lem left (code ++ (b'0' + s.decimal_digit w.draws) ∷ []) _
          (AllDigits-append code _ h ((omega arith, omega (arith, digit w.draws)), tt)))
        (λ c w' k. (
          omega (arith, k.0, length-append code ((b'0' + s.decimal_digit w.draws) ∷ [])),
          k.1,
          omega (arith, k.2),
        )))

  -- Where the digits drawn are below 10, generate_Ver comes to an end with six decimal digits,
  -- and has drawn six.
  pub generate_ver_lem :
      (w : AuthServer Db)
      → Returns generate_ver w
          (λ code w'. (length code ≡ 6) × AllDigits code × (w'.draws ≡ w.draws + 6))
  unfolding generate_ver
  generate_ver_lem w = code_rounds_lem 6 [] w tt
