-- ===== src/Mcp.antt =====
-- crates/mcp/src/lib.rs: the lines that an MCP client reads from its server, and the routing of answers to
-- the requests that wait. A stream is the list of what `fill_buf` gives: chunks that are not empty, until
-- an error or the end.
pub mod Framing
pub mod Loop
pub mod Pending
pub mod Requests
use entheai.Base.{
  ℕ, zero, suc, ◌+◌, String, Bool, true, false, Option, none, some, List, [], ◌∷◌, ◌++◌, length,
  ltb, ◌==◌, if◌then◌else◌,
}

-- A chunk is its first byte and the others.
pub data Chunk : Type 0 where
  bytes : ℕ → List ℕ → Chunk
  io_error : Chunk

pub data ReadLineOutcome : Type 0 where
  line : List ℕ → ReadLineOutcome
  too_long eof : ReadLineOutcome

-- The bytes before the first newline, and those behind it, if there is one.
abbrev pub cut : List ℕ → List ℕ × Option (List ℕ)
cut [] = ([], none)
cut (b ∷ bs) =
    let (before, after) = cut bs in if b == 10 then ([], some bs) else (b ∷ before, after)

-- What is left of a chunk goes back in front of the stream.
abbrev pub consume : List ℕ → List Chunk → List Chunk
consume [] cs = cs
consume (b ∷ bs) cs = bytes b bs ∷ cs

-- The variables of the loop: the buffer, or that the line is too long.
abbrev pub extend : ℕ → Option (List ℕ) → List ℕ → Option (List ℕ)
extend max_bytes none chunk = none
extend max_bytes (some buf) chunk =
    if ltb max_bytes (length buf + length chunk) then none else some (buf ++ chunk)

abbrev pub line_of : Option (List ℕ) → ReadLineOutcome
line_of none = too_long
line_of (some buf) = line buf

-- The stream has ended.
abbrev pub at_end : Option (List ℕ) → ReadLineOutcome
at_end none = too_long
at_end (some []) = eof
at_end (some (b ∷ bs)) = line (b ∷ bs)

-- The loop; `none` is the error of the stream. The text of a line is its bytes.
unfoldable pub read_on : ℕ → Option (List ℕ) → List Chunk → Option (ReadLineOutcome × List Chunk)
read_on max_bytes buf [] = some (at_end buf, [])
read_on max_bytes buf (io_error ∷ cs) = none
read_on max_bytes buf (bytes b bs ∷ cs) =
    let (before, after) = cut (b ∷ bs) in
    elim after [
      | some rest ↦ some (line_of (extend max_bytes buf before), consume rest cs)
      | none ↦ read_on max_bytes (extend max_bytes buf before) cs
    ]

unfoldable pub read_capped_line : ℕ → List Chunk → Option (ReadLineOutcome × List Chunk)
unfolding read_on
read_capped_line max_bytes cs = read_on max_bytes (some []) cs
