-- ===== src/Examples/McpCases.antt =====
-- The MCP client's reader at concrete inputs (crates/mcp/src/lib.rs).
use entheai.Base.{ℕ, ◌+◌, ◌≡◌, refl, none, some, List, [], ◌∷◌, if◌then◌else◌, arith, nat_eq}
use entheai.Base.Sets.{member}
use entheai.Mcp.{Chunk, bytes, read_capped_line}
use entheai.Mcp.Framing.{flat, first_line, Reads, read_capped_line-first_line}
use entheai.Mcp.Loop.{Decoder, Router, reader_loop}
use entheai.Base.{◌≤◌, true}
use entheai.Mcp.Loop.{handle}
use entheai.Mcp.Requests.{Client, send, Reached, start, sends, arrives, Reached-answers}
use entheai.Mcp.Pending.{answers, reader_loop-answers}

-- `a`, `b`, a newline and `c`, with the newline at the end of a chunk.
abbrev two_chunks : List Chunk
two_chunks = bytes b'a' [] ∷ bytes b'b' (10 ∷ []) ∷ bytes b'c' [] ∷ []

read_capped_line-first_line_example :
    Reads (read_capped_line 8 two_chunks) (first_line 8 (flat two_chunks))
read_capped_line-first_line_example = read_capped_line-first_line 8 two_chunks refl

-- Each line is taken for an answer to the request 3.
abbrev to_three : Decoder ℕ
to_three = record {
  from_utf8_lossy = λ bs. bs;
  from_str = λ line. some (record { id = some 3; error = none; result = some 7 });
}

abbrev waiting : Router ℕ
waiting = record { pending = 3 ∷ 5 ∷ []; sent = [] }

reader_loop-answers_example :
    (v : Router ℕ) × ((reader_loop to_three 9 8 two_chunks waiting ≡ some v)
      × ((v.pending ≡ [])
          × ((id : ℕ)
              → answers id v.sent
                ≡ answers id waiting.sent + (if member id waiting.pending then 1 else 0))))
reader_loop-answers_example =
    reader_loop-answers to_three 9 8 two_chunks waiting refl (ground arith) refl

-- A client that has sent one request, which is answered.
abbrev new_client : Client ℕ
new_client = record { router = record { pending = []; sent = [] }; next_id = 1 }

abbrev answered_client : Client ℕ
answered_client = record (send new_client) {
  router = handle to_three (b'x' ∷ []) (send new_client).router;
}

Reached-answered_client : Reached to_three answered_client
Reached-answered_client = arrives (send new_client) (b'x' ∷ []) (sends new_client start)

Reached-answers_example :
    (answers 1 answered_client.router.sent ≤ 1)
    × (member 1 answered_client.router.pending ≡ true → answers 1 answered_client.router.sent ≡ 0)
Reached-answers_example = Reached-answers to_three answered_client 1 Reached-answered_client
