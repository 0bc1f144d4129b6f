-- ===== src/Weighttp/Chunks/Rounds.antt =====
-- A call of `client_parse` (weighttp-master/src/client.c) in a body returns.
use reading_comment.Common.{ℕ, ◌≡◌}
use reading_comment.Weighttp.Types.{Client}
use reading_comment.Weighttp.Status.{go_on}
use reading_comment.Weighttp.Chunks.{chunk_case}
use reading_comment.Weighttp.Chunks.Progress.{ReadsLarge}

-- The rounds of the parser from one chunk to another.
pub data ChunkSteps : Client → ℕ → Client → ℕ → Type 0 where
  here : {c : Client} {size : ℕ} → ChunkSteps c size c size
  step :
      {c : Client} {size : ℕ} {d : Client} {n : ℕ}
      → (chunk_case c size).0 ≡ go_on
      → ChunkSteps (chunk_case c size).1 (chunk_case c size).2 d n
      → ChunkSteps c size d n

-- The rounds lead to the size line of a chunk of 2^31 bytes or more.
abbrev pub MeetsLarge : Client → ℕ → Type 0
MeetsLarge c size = (d : Client) × (n : ℕ) × ChunkSteps c size d n × ReadsLarge d n
