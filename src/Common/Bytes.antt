-- ===== src/Common/Bytes.antt =====
-- C strings: as lists of bytes with no terminator, and as places in a memory of bytes.
use Prim.Native.Char.{code}
use Prim.Native.String.{String}
use Prim.Native.Nat.{ℕ, zero, suc, ◌+◌}
use mathlib.Core.Bool.{Bool, true, ◌&&◌}
use mathlib.Core.Option.{Option, none, some}
use mathlib.Core.List.{List, [], ◌∷◌}
use reading_comment.Common.Tests.{leb, ◌==◌, if◌then◌else◌}

abbrev pub Bytes : Type 0
Bytes = List ℕ

-- The bytes of an ASCII text.
abbrev pub codes : String → Bytes
codes String.[] = []
codes (String.◌∷◌ c s) = code c ∷ codes s

abbrev pub is_digit : ℕ → Bool
is_digit c = leb b'0' c && leb c b'9'

-- `tolower` in the C locale
abbrev pub to_lower : ℕ → ℕ
to_lower c = if leb b'A' c && leb c b'Z' then c + 32 else c

-- A memory of bytes: what stands at each offset.
abbrev pub Memory : Type 0
Memory = ℕ → ℕ

abbrev pub store : Memory → ℕ → ℕ → Memory
store m i b j = if i == j then b else m j

-- The bytes `bs` stored from `i` on.
unfoldable pub store_all : Memory → ℕ → Bytes → Memory
store_all m i [] = m
store_all m i (b ∷ bs) = store_all (store m i b) (i + 1) bs

-- `strncmp(m + i, s, strlen(s)) == 0`, for a text `s` with no zero byte.
unfoldable pub has_prefix : Memory → ℕ → Bytes → Bool
has_prefix m i [] = true
has_prefix m i (b ∷ bs) = m i == b && has_prefix m (i + 1) bs

-- `strncasecmp(m + i, s, strlen(s)) == 0`, for a text `s` with no zero byte.
unfoldable pub has_prefix_nocase : Memory → ℕ → Bytes → Bool
has_prefix_nocase m i [] = true
has_prefix_nocase m i (b ∷ bs) = to_lower (m i) == to_lower b && has_prefix_nocase m (i + 1) bs

-- `strchr(m + i, c)` for `c` other than 0, as an offset, within `fuel` bytes.
unfoldable pub strchr : ℕ → Memory → ℕ → ℕ → Option ℕ
strchr zero m i c = none
strchr (suc fuel) m i c =
    let rest = strchr fuel m (i + 1) c in
    if m i == c then some i else if m i == 0 then none else rest

-- `strstr(m + i, "\r\n")`, as an offset, within `fuel` bytes.
unfoldable pub strstr_crlf : ℕ → Memory → ℕ → Option ℕ
strstr_crlf zero m i = none
strstr_crlf (suc fuel) m i =
    let rest = strstr_crlf fuel m (i + 1) in
    if m i == b'\r' && m (i + 1) == b'\n' then some i else if m i == 0 then none else rest
