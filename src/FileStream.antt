-- ===== src/FileStream.antt =====
-- What daemon/src/file_persistence_manager.cpp uses of `std::fstream`: a text, one position for
-- reading and writing, and the flags `eofbit` and `failbit`, as the standard library has them.
pub mod Positions
use yonderboy.Prelude.{
  ℕ, zero, suc, ◌+◌, Bool, true, false, ◌&&◌, ◌||◌, Option, none, some, List, [], ◌∷◌, ◌++◌, Bytes,
  length, take, drop, ◌==◌, if◌then◌else◌,
}
use yonderboy.Prelude.Text.{is_empty}
use yonderboy.Prelude.Signed.{ℤ, pos, negsuc}

pub record Stream : Type 0 where
  pub content : Bytes
  pub position : ℕ
  pub eof : Bool
  pub failed : Bool

-- The text up to the first newline, and whether there is one.
unfoldable pub line_of : Bytes → Bytes × Bool
line_of [] = ([], false)
line_of (c ∷ cs) =
    if c == b'\n' then ([], true) else (let (l, found) = line_of cs in (c ∷ l, found))

-- What `getline` gives until the end of a text is reached.
-- The lines of a text; the last one is what stands behind the last newline.
abbrev pub add_first : ℕ → List Bytes → List Bytes
add_first c [] = (c ∷ []) ∷ []
add_first c (l ∷ ls) = (c ∷ l) ∷ ls

unfoldable pub lines_of : Bytes → List Bytes
lines_of [] = [] ∷ []
lines_of (c ∷ cs) = if c == b'\n' then [] ∷ lines_of cs else add_first c (lines_of cs)

-- `seekg(p)` takes `eofbit` away; a position in front of the text is a failure.
unfoldable pub seekg : ℤ → Stream → Stream
seekg (pos p) s =
    if s.failed then record s { eof = false } else record s { position = p; eof = false }
seekg (negsuc p) s = record s { eof = false; failed = true }

-- `std::getline`; `none` is a stream that has failed.
unfoldable pub getline : Stream → Option Bytes × Stream
getline s =
    if s.eof || s.failed
    then (none, record s { failed = true })
    else let rest = drop s.position s.content in
      let (line, found) = line_of rest in
      if found
      then (some line, record s { position = s.position + length line + 1 })
      else if is_empty rest
      then (none, record s { eof = true; failed = true })
      else (some line, record s { position = s.position + length line; eof = true })

-- `tellg()` reads nothing, but fails at the end of the text.
unfoldable pub tellg : Stream → ℤ × Stream
tellg s = if s.eof || s.failed then (negsuc 0, record s { failed = true }) else (pos s.position, s)

unfoldable pub seekp : ℕ → Stream → Stream
seekp p s = if s.failed then s else record s { position = p }

-- `seekp(0, std::ios_base::end)`
unfoldable pub seekp_end : Stream → Stream
seekp_end s = if s.failed then s else record s { position = length s.content }

unfoldable pub tellp : Stream → ℤ
tellp s = if s.failed then negsuc 0 else pos s.position

-- `write` replaces what stands at the position, and lengthens the text past its end.
unfoldable pub write : Bytes → Stream → Stream
write text s = if s.eof || s.failed then s else record s {
  content = take s.position s.content ++ (text ++ drop (s.position + length text) s.content);
  position = s.position + length text;
}

unfoldable pub clear : Stream → Stream
clear s = record s { eof = false; failed = false }

abbrev pub open_stream : Bytes → Stream
open_stream text = record { content = text; position = 0; eof = false; failed = false }
