-- ===== src/Proto/Frame/RoundTrip.antt =====
-- `decode` after `encode`, whatever padding follows the frame.
use open_boot.Base.{
  ℕ, ◌+◌, ◌≤◌, ◌≡◌, refl, ◌∷◌, ◌++◌, ok, Bytes, length, length-append, take_front, get_or-append,
  u32_le, u32_of-u32_le, append_assoc, arith, le→leb, ◌%◌,
}
use open_boot.Proto.Consts.{max_payload}
use open_boot.Proto.Crc32.{Crc32}
use open_boot.Proto.Frame.{Frame, body, new, encode, decode, wire_len}

module _ (crc : Crc32) where
  -- The bytes that `encode` gives where its assertion holds.
  abbrev pub wire : Frame → Bytes
  wire f = body f ++ u32_le (crc.hash (body f))

  pub length-wire : (f : Frame) → length (wire f) ≡ 8 + length f.payload
  length-wire f = rw length-append (omega arith)

  pub encode_fits :
      {E : Type 0} (f : Frame) → length f.payload ≤ max_payload → encode crc {E = E} f ≡ ok (wire f)
  unfolding encode
  encode_fits f h = rw (le→leb _ _ h)

  decode_parts :
      (cmd seq len : ℕ) (payload pad : Bytes) (x : ℕ)
      → length payload ≡ len
      → len ≤ max_payload
      → x ≡ crc.hash (cmd ∷ seq ∷ len ∷ 0 ∷ payload)
      → decode crc ((cmd ∷ seq ∷ len ∷ 0 ∷ payload) ++ (u32_le x ++ pad))
        ≡ ok (record { cmd = cmd; seq = seq; payload = payload })
  unfolding decode
  decode_parts cmd seq len payload pad x hl h56 hx =
      let front = cmd ∷ seq ∷ len ∷ 0 ∷ payload in
      let tail = u32_le x ++ pad in
      ground (
        arith,
        length-append payload tail,
        take_front (4 + len) front tail,
        take_front len payload tail,
        get_or-append front tail 0 (4 + len) 0,
        get_or-append front tail 1 (4 + len) 0,
        get_or-append front tail 2 (4 + len) 0,
        get_or-append front tail 3 (4 + len) 0,
        u32_of-u32_le x,
        crc.hash-IsU32 front,
      )

  pub decode-wire :
      (f : Frame) (pad : Bytes) → length f.payload ≤ max_payload → decode crc (wire f ++ pad) ≡ ok f
  decode-wire f pad h =
      let small : length f.payload % 256 ≡ length f.payload = omega arith in
      rw (small, append_assoc)
        (decode_parts f.cmd f.seq (length f.payload) f.payload pad _ refl h refl)

  -- A payload within the limit is accepted by `Frame::new`; the frame encodes to `wire_len` bytes,
  -- and decoding these gives the frame back whatever bytes follow.
  pub decode-encode :
      (cmd seq : ℕ) (payload pad : Bytes)
      → length payload ≤ max_payload
      → (f : Frame) × (w : Bytes) × (new {E = ⊥} cmd seq payload ≡ ok f)
        × (encode crc {E = ⊥} f ≡ ok w)
        × (length w ≡ wire_len f)
        × (decode crc (w ++ pad) ≡ ok f)
  unfolding new wire_len
  decode-encode cmd seq payload pad h =
      let f : Frame = record { cmd = cmd; seq = seq; payload = payload } in
      (
        f,
        wire f,
        rw (le→leb _ _ h),
        encode_fits f h,
        rw length-append (omega arith),
        decode-wire f pad h,
      )
