-- ===== src/Hex.antt =====
-- tools/src/hex.rs: Intel HEX. `Record` decodes one line, `Assemble` is the accumulator and the
-- image, and this module puts the two together. A text is the list of its code points.
pub mod Errors
pub mod Record
pub mod Assemble
pub mod Image
pub mod Outcome
use open_boot.Base.{
  ℕ, zero, suc, ◌+◌, ◌≤◌, Bool, true, false, ◌&&◌, ◌||◌, not, List, [], ◌∷◌, ◌++◌, Option, none,
  some, Result, ok, err, fault, ◌>>=◌, ◌>>◌, bail_if, Bytes, leb, ◌==◌, if◌then◌else◌,
}
unfoldable pub use open_boot.Text.{trim_start, trim}
use open_boot.Hex.Errors.{HexError, Text, content_after_eof}
use open_boot.Hex.Record.{parse_line}
use open_boot.Hex.Assemble.{Accumulator, empty, feed, finish}

-- `text.replace("\r\n", "\n")`
unfoldable pub normalize : Text → Text
normalize [] = []
normalize (c ∷ []) = c ∷ []
normalize (c ∷ e ∷ cs) = if c == 13 && e == 10 then 10 ∷ normalize cs else c ∷ normalize (e ∷ cs)

-- `split('\n')`: the line being read, and those behind it.
unfoldable pub split_lines : Text → List Text
split_lines [] = [] ∷ []
split_lines (c ∷ cs) = elim (split_lines cs) [
  | [] ↦ []
  | line ∷ lines ↦ if c == 10 then [] ∷ line ∷ lines else (c ∷ line) ∷ lines
]

-- The body of the loop on a line that is not blank.
unfoldable pub feed_line : Accumulator → Text → Result HexError Accumulator
feed_line acc line = do bail_if acc.saw_eof content_after_eof; rec ← parse_line line; feed acc rec

unfoldable pub feed_lines : Accumulator → List Text → Result HexError Accumulator
unfolding feed_line trim
feed_lines acc [] = ok acc
feed_lines acc (raw ∷ lines) = elim (trim raw) [
  | [] ↦ feed_lines acc lines
  | c ∷ cs ↦ feed_line acc (c ∷ cs) >>= λ acc'. feed_lines acc' lines
]

unfoldable pub parse_intel_hex : Text → Result HexError (ℕ × Bytes)
unfolding feed_lines normalize split_lines
parse_intel_hex text = feed_lines empty (split_lines (normalize text)) >>= finish
