-- ===== src/UserAuth/Receive/Frames.antt =====
-- The frames that handleProcess of User_auth_s.cc takes from its buffer.
use chatroom.Base.{
  ℕ, suc, ◌+◌, ◌<◌, ◌%◌, ◌≡◌, refl, ap, ◌∙◌, Text, Bool, true, false, List, [], ◌∷◌, ◌++◌,
  append_assoc, some, arith, length, length-append, take-append, ltb, leb,
}
use chatroom.Protocol.{u32_mod, pack}
use chatroom.Protocol.Framing.{pack-length, payload-pack, header-pack, drop-pack, stream, AllFit}
use chatroom.UserAuth.State.{Auth}
use chatroom.UserAuth.Receive.{handle_process}

module _ (parse : Text → Bool × Auth) where
  -- One round over a whole frame that is parsed.
  round-pack :
      (fuel : ℕ) (p rest : Text) (auth : Auth)
      → length p + 4 < u32_mod
      → (parse p).0 ≡ true
      → handle_process parse (suc fuel) (pack p ++ rest) auth
        ≡ handle_process parse fuel rest (parse p).1
  unfolding handle_process
  round-pack fuel p rest auth h e =
      let size : length (pack p ++ rest) ≡ length p + 4 + length rest =
        omega (arith, length-append (pack p) rest, pack-length p) in
      let bound : (length p + 4) % u32_mod ≡ length p + 4 = omega arith in
      let taken : (4 + length p) % u32_mod ≡ 4 + length p = omega arith in
      let enough : leb 4 (length (pack p ++ rest)) ≡ true = ground (arith, size) in
      let fits : ltb (length (pack p ++ rest)) (length p + 4) ≡ false = ground (arith, size) in
      rw
        (
          enough,
          header-pack p rest (omega arith),
          bound,
          taken,
          fits,
          payload-pack p rest,
          take-append p rest,
          drop-pack p rest,
          e,
        )
        refl

  -- The message that is acted on: the last one, or the one before all of them.
  abbrev pub last_message : List Text → Auth → Auth
  last_message [] auth = auth
  last_message (p ∷ ps) auth = last_message ps (parse p).1

  abbrev pub AllParse : List Text → Type 0
  AllParse [] = Unit
  AllParse (p ∷ ps) = ((parse p).0 ≡ true) × AllParse ps

  -- Where each of some packed payloads fits in a frame and is parsed, and fewer than four bytes
  -- follow, handleProcess takes all of them off the buffer and leaves the last message only. One
  -- round for each and one more is enough fuel.
  pub handle_process-stream :
      (ps : List Text) (short : Text) (auth : Auth)
      → AllFit ps
      → AllParse ps
      → length short < 4
      → handle_process parse (suc (length ps)) (stream ps ++ short) auth
        ≡ some (short, last_message ps auth)
  unfolding handle_process
  handle_process-stream [] short auth fit ok h = ground arith
  handle_process-stream (p ∷ ps) short auth fit ok h =
      ap (λ b. handle_process parse (suc (suc (length ps))) b auth)
        (append_assoc (pack p) (stream ps) short)
      ∙ round-pack (suc (length ps)) p (stream ps ++ short) auth fit.0 ok.0
      ∙ handle_process-stream ps short (parse p).1 fit.1 ok.1 h
