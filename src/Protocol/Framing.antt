-- ===== src/Protocol/Framing.antt =====
-- The frames of src/tools/protocol.cc: what `unpack` makes of what `pack` built, of a part of it, and
-- of a length near the end of `uint32_t`.
use chatroom.Base.{
  ℕ, zero, suc, ◌+◌, ◌-◌, ◌≤◌, ◌<◌, ◌%◌, ◌≡◌, refl, sym, ap, ◌∙◌, Text, Bool, true, false, List, [],
  ◌∷◌, ◌++◌, map, append-nil, append_assoc, none, some, arith, length, take, drop, length-append,
  take-append, drop-append, ltb, leb,
}
use chatroom.Protocol.{
  u32_mod, htonl_bytes, ntohl_bytes, pack, parse_msg, unpack, frames, push_frame, round,
}

ntohl-htonl : (n : ℕ) (rest : Text) → n < u32_mod → ntohl_bytes (htonl_bytes n ++ rest) ≡ n
unfolding ntohl_bytes htonl_bytes
ntohl-htonl n rest h = omega arith

-- How `pack` looks to `unpack`.
pub pack-length : (p : Text) → length (pack p) ≡ length p + 4
unfolding pack
pack-length p = omega arith

pub payload-pack : (p rest : Text) → drop 4 (pack p ++ rest) ≡ p ++ rest
unfolding pack
payload-pack p rest = refl

pub header-pack : (p rest : Text) → length p < u32_mod → ntohl_bytes (pack p ++ rest) ≡ length p
unfolding pack htonl_bytes ntohl_bytes
header-pack p rest h = omega arith

pub drop-pack : (p rest : Text) → drop (4 + length p) (pack p ++ rest) ≡ rest
unfolding pack htonl_bytes
drop-pack p rest =
    let size : 4 + length p ≡ suc (suc (suc (suc (length p)))) = omega arith in
    rw size (drop-append p rest)

-- The length stands in the first four bytes.
header-prefix :
    (w x y z : ℕ) (short missing p : Text)
    → (w ∷ x ∷ y ∷ z ∷ short) ++ missing ≡ pack p
    → length p < u32_mod
    → ntohl_bytes (w ∷ x ∷ y ∷ z ∷ short) ≡ length p
unfolding ntohl_bytes
header-prefix w x y z short missing p e h =
    ap ntohl_bytes e ∙ ap ntohl_bytes (sym (append-nil (pack p))) ∙ header-pack p [] h

-- What was packed, one after the other, and that each fits in a frame.
abbrev pub stream : List Text → Text
stream [] = []
stream (p ∷ ps) = pack p ++ stream ps

abbrev pub AllFit : List Text → Type 0
AllFit [] = Unit
AllFit (p ∷ ps) = (length p + 4 < u32_mod) × AllFit ps

module _ {Msg : Type 0} (parse : Text → Bool × Msg) where
  -- Enough bytes, and no wrap-around: the payload is taken off.
  unpack_whole :
      (n : ℕ) (buffer : Text) (c : Msg)
      → ntohl_bytes buffer ≡ n
      → n + 4 < u32_mod
      → n + 4 ≤ length buffer
      → unpack parse buffer c
        ≡ (true, drop (4 + n) buffer, parse_msg parse (take n (drop 4 buffer)))
  unfolding unpack
  unpack_whole n buffer c e h k =
      let bound : (n + 4) % u32_mod ≡ n + 4 = omega arith in
      let taken : (4 + n) % u32_mod ≡ 4 + n = omega arith in
      let enough : leb 4 (length buffer) ≡ true = ground arith in
      let fits : ltb (length buffer) (n + 4) ≡ false = ground arith in
      rw (e, bound, taken, enough, fits)

  unpack_short :
      (n : ℕ) (buffer : Text) (c : Msg)
      → ntohl_bytes buffer ≡ n
      → n + 4 < u32_mod
      → length buffer < n + 4
      → unpack parse buffer c ≡ (false, buffer, c)
  unfolding unpack
  unpack_short n buffer c e h k =
      let bound : (n + 4) % u32_mod ≡ n + 4 = omega arith in rw (e, bound) (ground arith)

  unpack_tiny :
      (buffer : Text) (c : Msg) → length buffer < 4 → unpack parse buffer c ≡ (false, buffer, c)
  unfolding unpack
  unpack_tiny buffer c k = ground arith

  -- A packed payload that fits in a frame is taken off the start of the buffer and parsed, and
  -- what follows it stays.
  pub unpack-pack :
      (p rest : Text) (c : Msg)
      → length p + 4 < u32_mod
      → unpack parse (pack p ++ rest) c ≡ (true, rest, parse_msg parse p)
  unpack-pack p rest c h =
      let size : length (pack p ++ rest) ≡ length p + 4 + length rest =
        omega (arith, length-append (pack p) rest, pack-length p) in
      let tail : drop (4 + length p) (pack p ++ rest) ≡ rest = drop-pack p rest in
      rw (
        unpack_whole (length p) (pack p ++ rest) c (header-pack p rest (omega arith)) h
            (omega arith),
        tail,
        payload-pack p rest,
        take-append p rest,
      )

  -- A proper start of a packed payload that fits in a frame is refused, and the buffer and the
  -- message stay.
  pub unpack_partial :
      (p short missing : Text) (c : Msg)
      → length p + 4 < u32_mod
      → short ++ missing ≡ pack p
      → 0 < length missing
      → unpack parse short c ≡ (false, short, c)
  unpack_partial p (w ∷ x ∷ y ∷ z ∷ short) missing c h e m =
      let size = length-append (w ∷ x ∷ y ∷ z ∷ short) missing in
      unpack_short (length p) _ c (header-prefix w x y z short missing p e (omega arith)) h
        (omega (arith, size, ap length e, pack-length p))
  unpack_partial p short missing c h e m = unpack_tiny short c (omega arith)

  -- Where the length in the buffer and four more pass 2 ^ 32, and four bytes have arrived,
  -- unpack succeeds: it takes what there is of the payload, and the length and four less 2 ^ 32
  -- bytes leave the buffer.
  pub unpack_wrapped :
      (n : ℕ) (buffer : Text) (c : Msg)
      → ntohl_bytes buffer ≡ n
      → u32_mod ≤ n + 4
      → n < u32_mod
      → 4 ≤ length buffer
      → unpack parse buffer c
        ≡ (true, drop (n + 4 - u32_mod) buffer, parse_msg parse (take n (drop 4 buffer)))
  unfolding unpack
  unpack_wrapped n buffer c e lo hi k =
      let bound : (n + 4) % u32_mod ≡ n + 4 - u32_mod = omega arith in
      let taken : (4 + n) % u32_mod ≡ n + 4 - u32_mod = omega arith in
      let enough : leb 4 (length buffer) ≡ true = ground arith in
      let fits : ltb (length buffer) (n + 4 - u32_mod) ≡ false = ground arith in
      rw (e, bound, taken, enough, fits)

  -- Where the length in the buffer is 2 ^ 32 - 4 and four bytes have arrived, the loop over
  -- unpack is not done after any number of rounds.
  pub frames_stuck :
      (fuel : ℕ) (buffer : Text) (c : Msg)
      → ntohl_bytes buffer ≡ u32_mod - 4
      → 4 ≤ length buffer
      → frames parse c fuel buffer ≡ none
  unfolding frames
  frames_stuck zero buffer c e k = refl
  frames_stuck (suc fuel) buffer c e k =
      ap (round (frames parse c fuel))
        (unpack_wrapped (u32_mod - 4) buffer c e (omega arith) (omega arith) k)
      ∙ ap (push_frame _) (frames_stuck fuel buffer c e k)

  -- Where each of some payloads fits in a frame, and so does one more of which the packed bytes
  -- are still incomplete, the loop over unpack hands on the messages parsed from the whole ones,
  -- in their order, and the incomplete bytes stay in the buffer. One round for each whole frame
  -- and one more is enough fuel.
  pub frames-stream :
      (ps : List Text) (last short missing : Text) (c : Msg)
      → AllFit ps
      → length last + 4 < u32_mod
      → short ++ missing ≡ pack last
      → 0 < length missing
      → frames parse c (suc (length ps)) (stream ps ++ short)
        ≡ some (map (parse_msg parse) ps, short)
  unfolding frames
  frames-stream [] last short missing c fit h e m =
      ap (round (frames parse c zero)) (unpack_partial last short missing c h e m)
  frames-stream (p ∷ ps) last short missing c fit h e m =
      ap (frames parse c (suc (suc (length ps)))) (append_assoc (pack p) (stream ps) short)
      ∙ ap (round (frames parse c (suc (length ps)))) (unpack-pack p (stream ps ++ short) c fit.0)
      ∙ ap (push_frame _) (frames-stream ps last short missing c fit.1 h e m)
