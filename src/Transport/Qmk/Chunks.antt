-- ===== src/Transport/Qmk/Chunks.antt =====
-- The bytes of a frame, cut into reports and passed on by the keyboard.
use open_boot.Base.{
  ℕ, zero, suc, ◌-◌, ◌≤◌, ◌<◌, ◌≡◌, refl, sym, ◌∙◌, ap, List, [], ◌∷◌, ◌++◌, map, append_assoc,
  Option, none, some, Bytes, All, length, take, drop, ◌==◌, if◌then◌else◌, replicate, length-take,
  length-drop, length-append, length-replicate, take_front, take-append-drop, arith,
}
use open_boot.Transport.Qmk.{report_of, parse_report, stream_max, report_len, tag_stream}
use open_boot.Transport.Qmk.Pipe.{chunks}

-- The bytes that a keyboard passes on for the reports it gets: the payloads of its stream reports.
abbrev pub passed_on : Option (ℕ × Bytes) → Bytes
passed_on none = []
passed_on (some (tag, payload)) = if tag == tag_stream then payload else []

unfoldable pub bridged : List Bytes → Bytes
unfolding parse_report
bridged [] = []
bridged (report ∷ rest) = passed_on (parse_report report) ++ bridged rest

pub bridged-append : (xs ys : List Bytes) → bridged (xs ++ ys) ≡ bridged xs ++ bridged ys
unfolding bridged
bridged-append [] ys = refl
bridged-append (x ∷ xs) ys =
    ap (λ b. passed_on (parse_report x) ++ b) (bridged-append xs ys)
    ∙ sym (append_assoc (passed_on (parse_report x)) (bridged xs) (bridged ys))

length-padded :
    (payload : Bytes)
    → length payload ≤ stream_max
    → length (payload ++ replicate (stream_max - length payload) 0) ≡ stream_max
length-padded payload h = omega (
  arith,
  length-append payload (replicate (stream_max - length payload) 0),
  length-replicate {A = ℕ} (stream_max - length payload) 0,
)

-- A report of at most 62 bytes of payload has the length of a report, and `pump` on the other side
-- reads its tag and its payload out of it.
pub parse_report-report_of :
    (tag : ℕ) (payload : Bytes)
    → length payload ≤ stream_max
    → (parse_report (report_of tag payload) ≡ some (tag, payload))
      × (length (report_of tag payload) ≡ report_len)
unfolding parse_report report_of
parse_report-report_of tag payload h =
    let size = length-padded payload h in
    let zeros : Bytes = replicate (stream_max - length payload) 0 in
    (ground (arith, size, take_front (length payload) payload zeros refl), omega (arith, size))

-- Every chunk has bytes, and at most `size` of them; together they are the bytes.
pub chunks-cut :
    (n size : ℕ) (bytes : Bytes)
    → 0 < size
    → length bytes ≤ n
    → All (λ c. (0 < length c) × (length c ≤ size)) (chunks n size bytes)
unfolding chunks
chunks-cut zero size bytes h k = tt
chunks-cut (suc n) size [] h k = tt
chunks-cut (suc n) size (b ∷ bs) h k =
    let left = length-drop size (b ∷ bs) in
    let cut = length-take size (b ∷ bs) in
    ((omega arith, omega arith), chunks-cut n size (drop size (b ∷ bs)) h (omega arith))

abbrev pub stream_report : Bytes → Bytes
stream_report chunk = report_of tag_stream chunk

pub bridged-chunks :
    (n size : ℕ) (bytes : Bytes)
    → 0 < size
    → size ≤ stream_max
    → length bytes ≤ n
    → bridged (map stream_report (chunks n size bytes)) ≡ bytes
unfolding chunks bridged
bridged-chunks zero size [] h most k = refl
bridged-chunks zero size (b ∷ bs) h most k = absurd (omega arith)
bridged-chunks (suc n) size [] h most k = refl
bridged-chunks (suc n) size (b ∷ bs) h most k =
    let left = length-drop size (b ∷ bs) in
    let cut = length-take size (b ∷ bs) in
    let chunk = take size (b ∷ bs) in
    let read = (parse_report-report_of tag_stream chunk (omega arith)).0 in
    let rest = bridged-chunks n size (drop size (b ∷ bs)) h most (omega arith) in
    ap (λ o. passed_on o ++ bridged (map stream_report (chunks n size (drop size (b ∷ bs))))) read
    ∙ ap (λ t. chunk ++ t) rest
    ∙ take-append-drop size (b ∷ bs)
