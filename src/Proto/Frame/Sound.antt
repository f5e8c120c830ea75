-- ===== src/Proto/Frame/Sound.antt =====
-- What `decode` accepts: exactly the encodings of valid frames, with anything behind them.
use open_boot.Base.{
  ℕ, zero, suc, ◌+◌, ◌≤◌, ◌≡◌, refl, [], ◌∷◌, ◌++◌, ok, fault, ◌≢◌, Bytes, length, IsByte, All,
  All-take, All-get_or, take, drop, get_or, u32_of, u32_le-u32_of, arith, ◌%◌, length-take,
  take-append-drop,
}
use open_boot.Proto.Consts.{max_payload}
use open_boot.Proto.Crc32.{Crc32}
use open_boot.Proto.Frame.{Frame, decode, IsValid}
use open_boot.Proto.Frame.RoundTrip.{wire}

-- The four bytes that `take` adds from `n` on.
take_four :
    (n : ℕ) (xs : Bytes)
    → n + 4 ≤ length xs
    → take (n + 4) xs
      ≡ take n xs
        ++ (get_or xs n 0 ∷ get_or xs (n + 1) 0 ∷ get_or xs (n + 2) 0 ∷ get_or xs (n + 3) 0 ∷ [])
take_four zero (a ∷ b ∷ c ∷ d ∷ xs) h = ground arith
take_four zero [] h = absurd (omega arith)
take_four zero (a ∷ []) h = absurd (omega arith)
take_four zero (a ∷ b ∷ []) h = absurd (omega arith)
take_four zero (a ∷ b ∷ c ∷ []) h = absurd (omega arith)
take_four (suc n) [] h = absurd (omega arith)
take_four (suc n) (x ∷ xs) h = ground (arith, take_four n xs)

module _ (crc : Crc32) where
  -- No read of `decode` is out of range, whatever the buffer.
  pub decode-ne-fault : (buf : Bytes) → decode crc buf ≢ fault
  unfolding decode
  decode-ne-fault buf e = ground arith

  -- What the checks of `decode` leave, on a buffer with a whole header.
  decode_inv :
      (a b l fl : ℕ) (t : Bytes) (f : Frame)
      → decode crc (a ∷ b ∷ l ∷ fl ∷ t) ≡ ok f
      → (fl ≡ 0)
        × (l ≤ max_payload)
        × (l + 4 ≤ length t)
        × (f ≡ record { cmd = a; seq = b; payload = take l t })
        × (crc.hash (take (4 + l) (a ∷ b ∷ l ∷ fl ∷ t))
            ≡ u32_of (get_or t l 0) (get_or t (l + 1) 0) (get_or t (l + 2) 0) (get_or t (l + 3) 0))
  unfolding decode
  decode_inv a b l fl t f h = ground (arith, length-take l t)

  take_header :
      (a b l fl : ℕ) (t : Bytes) → take (4 + l) (a ∷ b ∷ l ∷ fl ∷ t) ≡ a ∷ b ∷ l ∷ fl ∷ take l t
  take_header a b l fl t = ground arith

  wire_front :
      (a b l : ℕ) (t : Bytes)
      → All IsByte t
      → l ≤ max_payload
      → l + 4 ≤ length t
      → crc.hash (a ∷ b ∷ l ∷ 0 ∷ take l t)
        ≡ u32_of (get_or t l 0) (get_or t (l + 1) 0) (get_or t (l + 2) 0) (get_or t (l + 3) 0)
      → (a ∷ b ∷ l ∷ 0 ∷ t)
        ≡ wire crc (record { cmd = a; seq = b; payload = take l t }) ++ drop (l + 4) t
  wire_front a b l t ht hl hn e =
      let byte = λ (i : ℕ). All-get_or IsByte t i 0 ht (omega arith) in
      let len : length (take l t) % 256 ≡ l = omega (arith, length-take l t) in
      let four =
        u32_le-u32_of (get_or t l 0) (get_or t (l + 1) 0) (get_or t (l + 2) 0) (get_or t (l + 3) 0)
          (byte l) (byte (l + 1)) (byte (l + 2)) (byte (l + 3)) in
      let whole : take (l + 4) t ++ drop (l + 4) t ≡ t = take-append-drop (l + 4) t in
      rw (len, e, four, ← take_four l t hn, whole) refl

  -- On a buffer of bytes, what `decode` accepts is a valid frame, and the buffer begins with the
  -- encoding of that frame.
  pub decode-IsValid :
      (buf : Bytes) (f : Frame)
      → All IsByte buf
      → decode crc buf ≡ ok f
      → IsValid f × ((rest : Bytes) × (buf ≡ wire crc f ++ rest))
  decode-IsValid (a ∷ b ∷ l ∷ fl ∷ t) f (ha, (hb, (hl, (hfl, ht)))) h =
      let (flags, fits, room, parts, sum) = decode_inv a b l fl t f h in
      let sum' = rw (take_header, flags) at sum in
      rw (parts, flags)
        (
          record {
            cmd_byte = ha;
            seq_byte = hb;
            payload_bytes = All-take IsByte l t ht;
            fits = omega (arith, length-take l t);
          },
          (drop (l + 4) t, wire_front a b l t ht fits room sum'),
        )
  decode-IsValid [] f hs h = unfold decode in cc
  decode-IsValid (a ∷ []) f hs h = unfold decode in cc
  decode-IsValid (a ∷ b ∷ []) f hs h = unfold decode in cc
  decode-IsValid (a ∷ b ∷ c ∷ []) f hs h = unfold decode in cc
