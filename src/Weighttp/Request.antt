-- ===== src/Weighttp/Request.antt =====
-- `forge_request` of weighttp-master/src/weighttp.c: the url is taken apart, and the request is
-- written into memory that is measured beforehand. Strings are lists of bytes with no terminator.
pub mod Size
pub mod Url
use reading_comment.Common.{
  ℕ, zero, suc, ◌+◌, ◌%◌, ◌<◌, ◌≤◌, Bool, true, false, not, ◌&&◌, Option, none, some, List, [], ◌∷◌,
  ◌++◌, ◌==◌, if◌then◌else◌, length, drop, u16_mod, u32_mod,
}
use reading_comment.Common.Bytes.{Bytes, codes}
use reading_comment.Weighttp.Number.{atoi, decimal16}

-- Why `forge_request` returns NULL.
pub data Refusal : Type 0 where
  no_ssl bad_url duplicate_host invalid_host : Refusal

-- The request or a part of it, or NULL.
pub data Outcome (A : Type 0) : Type 0 where
  null : Refusal → Outcome A
  made : A → Outcome A

infixl 5 ◌>>=◌
abbrev pub ◌>>=◌ : {A B : Type 0} → Outcome A → (A → Outcome B) → Outcome B
null why >>= next = null why
made part >>= next = next part

-- `strncmp(s, p, strlen(p)) == 0`
unfoldable pub starts_with : Bytes → Bytes → Bool
starts_with [] s = true
starts_with (p ∷ ps) [] = false
starts_with (p ∷ ps) (c ∷ s) = c == p && starts_with ps s

abbrev pub cons_first : ℕ → Option (Bytes × Bytes) → Option (Bytes × Bytes)
cons_first c none = none
cons_first c (some (before, after)) = some (c ∷ before, after)

-- `strchr(s, b)`: what stands before the first `b` and behind it.
unfoldable pub split_at : ℕ → Bytes → Option (Bytes × Bytes)
split_at b [] = none
split_at b (c ∷ s) = if c == b then some ([], s) else cons_first c (split_at b s)

-- What `*host`, `*port` and `url` are once the url is taken apart.
pub record Target : Type 0 where
  pub host : Bytes
  pub port : ℕ
  pub path : Bytes

-- Behind the `:` of `host:port`.
unfoldable pub with_port : Bytes → Bytes → Target
with_port host after = elim (split_at b'/' after) [
  | none ↦ record { host = host; port = atoi after % u16_mod; path = [] }
  | some (digits, path) ↦ record { host = host; port = atoi digits % u16_mod; path = b'/' ∷ path }
]

unfoldable pub without_port : Bytes → Target
without_port url = elim (split_at b'/' url) [
  | none ↦ record { host = url; port = 80; path = [] }
  | some (host, path) ↦ record { host = host; port = 80; path = b'/' ∷ path }
]

unfoldable pub split_url : Bytes → Target
split_url url = elim (split_at b':' url) [
  | none ↦ without_port url
  | some (host, after) ↦ with_port host after
]

-- The scheme is taken off the url.
unfoldable pub strip_scheme : Bytes → Outcome Bytes
strip_scheme url =
    if starts_with (codes "http://") url
    then made (drop 7 url)
    else if starts_with (codes "https://") url
    then null no_ssl
    else made url

-- `*port == 0`, and the path of a url that has none.
unfoldable pub check_target : Target → Outcome Target
check_target t =
    if t.port == 0
    then null bad_url
    else made (elim t.path [ [] ↦ record t { path = b'/' ∷ [] } | c ∷ s ↦ t ])

-- What the loop over the headers has found: the bytes to add, the Host header, a User-Agent.
pub record Found : Type 0 where
  pub size : ℕ
  pub host : Option Bytes
  pub user_agent : Bool

abbrev skip_space : Bytes → Bytes
skip_space [] = []
skip_space (c ∷ s) = if c == b' ' then s else c ∷ s

-- A Host header: its value may begin with a space, and must not be empty.
unfoldable pub host_header : Found → Bytes → Option Bytes → Outcome Found
host_header f (c ∷ s) none = made (record f { size = f.size + length (c ∷ s); host = some (c ∷ s) })
host_header f [] none = null invalid_host
host_header f s (some h) = null duplicate_host

unfoldable pub scan_header : Found → Bytes → Outcome Found
scan_header f h =
    if starts_with (codes "Host:") h
    then host_header f (skip_space (drop 5 h)) f.host
    else made (record f {
      size = f.size + (length h + 2);
      user_agent = if starts_with (codes "User-Agent:") h then true else f.user_agent;
    })

unfoldable pub scan_headers : Found → List Bytes → Outcome Found
scan_headers f [] = made f
scan_headers f (h ∷ hs) = scan_header f h >>= λ g. scan_headers g hs

abbrev pub none_found : Found
none_found = record { size = 0; host = none; user_agent = false }

-- The headers that are copied, each with its line end.
unfoldable pub other_headers : List Bytes → Bytes
other_headers [] = []
other_headers (h ∷ hs) =
    (if starts_with (codes "Host:") h then [] else h ++ codes "\r\n") ++ other_headers hs

-- VERSION, as the build file sets it.
abbrev pub version : Bytes
version = codes "0.3"

abbrev pub user_agent : Bytes
user_agent = codes "User-Agent: weighttp/" ++ (version ++ codes "\r\n")

-- The sum that `len` holds, as far as it is below 2^32.
unfoldable pub raw_size : Target → Found → ℕ
raw_size t f =
    length (codes "GET HTTP/1.1\r\nHost: :65536\r\nConnection: keep-alive\r\n\r\n")
    + 1
    + length t.host
    + length t.path
    + f.size
    + (if f.user_agent then 0 else length user_agent)

-- `len`, a `uint32_t`: the size of the memory that is taken for the request.
unfoldable pub request_size : Target → Found → ℕ
request_size t f = raw_size t f % u32_mod

-- The value of the Host line.
unfoldable pub host_value : Target → Option Bytes → Bytes
host_value t (some h) = h
host_value t none = t.host ++ (if t.port == 80 then [] else b':' ∷ decimal16 t.port)

-- The request that is put together from the url's parts and the headers.
unfoldable pub request_text : Target → Found → Bool → List Bytes → Bytes
request_text t f keep_alive headers =
    codes "GET "
    ++ (t.path
        ++ (codes " HTTP/1.1\r\nHost: "
            ++ (host_value t f.host
                ++ (codes "\r\n"
                    ++ ((if f.user_agent then [] else user_agent)
                        ++ (other_headers headers
                            ++ (if keep_alive
                                then codes "Connection: keep-alive\r\n\r\n"
                                else codes "Connection: close\r\n\r\n")))))))

-- The request, with the parts of the url and the size of its memory.
pub record Forged : Type 0 where
  pub target : Target
  pub found : Found
  pub size : ℕ
  pub text : Bytes

unfoldable pub forge_request : Bytes → Bool → List Bytes → Outcome Forged
forge_request url keep_alive headers = do
  rest ← strip_scheme url
  t ← check_target (split_url rest)
  f ← scan_headers none_found headers
  made (record {
    target = t;
    found = f;
    size = request_size t f;
    text = request_text t f keep_alive headers;
  })
