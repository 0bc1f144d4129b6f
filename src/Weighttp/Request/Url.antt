-- ===== src/Weighttp/Request/Url.antt =====
-- How `forge_request` (weighttp-master/src/weighttp.c) takes a url apart.
use reading_comment.Common.{
  ℕ, ◌<◌, false, none, some, [], ◌∷◌, ◌++◌, ◌≡◌, refl, arith, u16_mod, ◌==◌,
}
use reading_comment.Common.Bytes.{Bytes}
use reading_comment.Weighttp.Number.{decimal16}
use reading_comment.Common.Strings.{decimal_onto}
use reading_comment.Weighttp.Number.Values.{atoi-decimal16}
use reading_comment.Weighttp.Request.{split_at, with_port, split_url}

-- No byte of the text is `b`.
abbrev pub Lacks : ℕ → Bytes → Type 0
Lacks b [] = Unit
Lacks b (c ∷ s) = ((c == b) ≡ false) × Lacks b s

split_at-Lacks : (b : ℕ) (s t : Bytes) → Lacks b s → split_at b (s ++ (b ∷ t)) ≡ some (s, t)
unfolding split_at
split_at-Lacks b [] t h = ground arith
split_at-Lacks b (c ∷ s) t h = ground (arith, split_at-Lacks b s t h.1)

split_at-none : (b : ℕ) (s : Bytes) → Lacks b s → split_at b s ≡ none
unfolding split_at
split_at-none b [] h = refl
split_at-none b (c ∷ s) h = ground (arith, split_at-none b s h.1)

decimal16-Lacks : (p : ℕ) → p < u16_mod → Lacks b'/' (decimal16 p)
unfolding decimal16 decimal_onto
decimal16-Lacks p h = ground arith

-- A url of a host with no colon, a port and a path is taken apart into just these.
pub split_url-with_port :
    (host : Bytes) (p : ℕ) (path : Bytes)
    → Lacks b':' host
    → p < u16_mod
    → split_url (host ++ (b':' ∷ (decimal16 p ++ (b'/' ∷ path))))
      ≡ record { host = host; port = p; path = b'/' ∷ path }
unfolding split_url with_port
split_url-with_port host p path h k = ground (
  arith,
  split_at-Lacks b':' host (decimal16 p ++ (b'/' ∷ path)) h,
  split_at-Lacks b'/' (decimal16 p) path (decimal16-Lacks p k),
  atoi-decimal16 p k,
)

-- Everything before the first colon is taken for the host, the path of a url with no port included.
pub split_url-host :
    (before after : Bytes)
    → Lacks b':' before
    → (split_url (before ++ (b':' ∷ after))).host ≡ before
unfolding split_url with_port
split_url-host before after h = ground (arith, split_at-Lacks b':' before after h)
