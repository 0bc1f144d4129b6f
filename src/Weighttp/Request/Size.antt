-- ===== src/Weighttp/Request/Size.antt =====
-- Whether the request of `forge_request` (weighttp-master/src/weighttp.c) fits into its memory.
use reading_comment.Common.{
  ℕ, ◌+◌, ◌<◌, ◌≤◌, Bool, true, false, ◌&&◌, Option, none, some, List, [], ◌∷◌, ◌++◌, leb, ◌≡◌, ap,
  refl, arith, inl, inr, Bool-cases, if◌then◌else◌, length, length-append, drop, u16_mod, u32_mod,
}
use reading_comment.Common.Bytes.{Bytes, codes}
use reading_comment.Weighttp.Number.{decimal16}
use reading_comment.Common.Strings.{decimal_onto}
use reading_comment.Weighttp.Request.{
  Outcome, made, null, ◌>>=◌, Target, Found, Forged, starts_with, scan_header, host_header,
  skip_space, scan_headers, none_found, with_port, without_port, other_headers, user_agent,
  raw_size, request_size, host_value, request_text, forge_request, check_target, split_url,
  strip_scheme,
}

-- A chain that ends in a request has one at each link.
>>=-eq-made :
    {A B : Type 0} (part : Outcome A) (next : A → Outcome B) {whole : B}
    → (part >>= next) ≡ made whole
    → (a : A) × (part ≡ made a) × (next a ≡ made whole)
>>=-eq-made (null why) next h = cc
>>=-eq-made (made a) next h = (a, refl, h)

abbrev pub is_none : Option Bytes → Bool
is_none none = true
is_none (some h) = false

abbrev option_length : Option Bytes → ℕ
option_length none = 0
option_length (some h) = length h

length-host_header :
    (f : Found) (s : Bytes) (o : Option Bytes) {g : Found}
    → f.host ≡ o
    → host_header f s o ≡ made g
    → g.size + option_length f.host ≡ f.size + option_length g.host
unfolding host_header
length-host_header f (c ∷ s) none e h = ground arith
length-host_header f [] none e h = cc
length-host_header f [] (some x) e h = cc
length-host_header f (c ∷ s) (some x) e h = cc

length-scan_header :
    (f : Found) (h : Bytes) {g : Found}
    → scan_header f h ≡ made g
    → g.size + option_length f.host
      ≡ f.size
        + length (if starts_with (codes "Host:") h then [] else h ++ codes "\r\n")
        + option_length g.host
unfolding scan_header
length-scan_header f h {g} e = elim (Bool-cases (starts_with (codes "Host:") h)) [
  | inl y ↦ rw y (
      omega
        (arith, length-host_header f (skip_space (drop 5 h)) f.host {g = g} refl (ground arith)))
  | inr n ↦ rw n (ground (arith, length-append h (codes "\r\n")))
]

length-scan_headers :
    (hs : List Bytes) (f : Found) {g : Found}
    → scan_headers f hs ≡ made g
    → g.size + option_length f.host ≡ f.size + length (other_headers hs) + option_length g.host
unfolding scan_headers other_headers
length-scan_headers [] f e = ground arith
length-scan_headers (h ∷ hs) f {g} e =
    let (m, first, later) = >>=-eq-made (scan_header f h) (λ x. scan_headers x hs) e in
    omega (
      arith,
      length-scan_header f h first,
      length-scan_headers hs m later,
      length-append (if starts_with (codes "Host:") h then [] else h ++ codes "\r\n")
          (other_headers hs),
    )

-- Five digits from 10000 on, and at most four below.
length-decimal16 : (p : ℕ) → p < u16_mod → length (decimal16 p) ≤ (if leb 10000 p then 5 else 4)
unfolding decimal16 decimal_onto
length-decimal16 p h = ground arith

length-decimal16_big : (p : ℕ) → p < u16_mod → 10000 ≤ p → length (decimal16 p) ≡ 5
unfolding decimal16 decimal_onto
length-decimal16_big p h k = ground arith

-- What the port adds to the Host line.
abbrev port_room : ℕ → Option Bytes → ℕ
port_room p none = if leb 10000 p then 6 else 5
port_room p (some h) = 0

length-host_value :
    (t : Target) (o : Option Bytes)
    → t.port < u16_mod
    → length (host_value t o) ≤ length t.host + port_room t.port o + option_length o
unfolding host_value
length-host_value t none h = ground (
  arith,
  length-append t.host (b':' ∷ decimal16 t.port),
  length-append t.host [],
  length-decimal16 t.port h,
)
length-host_value t (some v) h = omega arith

length-host_value_big :
    (t : Target)
    → t.port < u16_mod
    → 10000 ≤ t.port
    → length (host_value t none) ≡ length t.host + 6
unfolding host_value
length-host_value_big t h k =
    ground (arith, length-append t.host (b':' ∷ decimal16 t.port), length-decimal16_big t.port h k)

-- The bytes of the request but for the Host line's value.
length-request_text :
    (t : Target) (f : Found) (k : Bool) (hs : List Bytes)
    → length (request_text t f k hs)
      ≡ length t.path
        + length (host_value t f.host)
        + (if f.user_agent then 0 else length user_agent)
        + length (other_headers hs)
        + (if k then 49 else 44)
unfolding request_text
length-request_text t f k hs =
    let closing =
      if k then codes "Connection: keep-alive\r\n\r\n" else codes "Connection: close\r\n\r\n" in
    let agent = if f.user_agent then [] else user_agent in
    let tail3 = other_headers hs ++ closing in
    let tail2 = codes "\r\n" ++ (agent ++ tail3) in
    ground (
      arith,
      length-append (other_headers hs) closing,
      length-append agent tail3,
      length-append (host_value t f.host) tail2,
      length-append t.path (codes " HTTP/1.1\r\nHost: " ++ (host_value t f.host ++ tail2)),
    )

port-lt : (url : Bytes) → (split_url url).port < u16_mod
unfolding split_url with_port without_port
port-lt url = ground arith

check_target-port : (u : Target) {t : Target} → check_target u ≡ made t → t.port ≡ u.port
unfolding check_target
check_target-port u h = ground arith

-- The port has five digits, the connection is kept alive, and no Host header is given.
abbrev pub overruns : Bool → Forged → Bool
overruns k r = k && leb 10000 r.target.port && is_none r.found.host

-- What `forge_request` has done when it succeeds.
record Steps (url : Bytes) (k : Bool) (hs : List Bytes) (r : Forged) : Type 0 where
  port : r.target.port < u16_mod
  sized : r.found.size ≡ length (other_headers hs) + option_length r.found.host
  size : r.size ≡ request_size r.target r.found
  text : r.text ≡ request_text r.target r.found k hs

forge_request-Steps :
    (url : Bytes) (k : Bool) (hs : List Bytes) {r : Forged}
    → forge_request url k hs ≡ made r
    → Steps url k hs r
unfolding forge_request
forge_request-Steps url k hs {r} h =
    let (rest, e1, h1) = >>=-eq-made (strip_scheme url) _ h in
    let (t, e2, h2) = >>=-eq-made (check_target (split_url rest)) _ h1 in
    let (f, e3, h3) = >>=-eq-made (scan_headers none_found hs) _ h2 in
    ground (
      arith,
      port-lt rest,
      check_target-port (split_url rest) {t = t} e2,
      length-scan_headers hs none_found {g = f} e3,
    )

-- When `forge_request` returns a request and `len` has not wrapped, the text and its terminator fit
-- into the memory taken for them, unless the connection is kept alive, the port has five digits and
-- no Host header is given: then they are one byte too long.
pub forge_request-size :
    (url : Bytes) (k : Bool) (hs : List Bytes) {r : Forged}
    → forge_request url k hs ≡ made r
    → raw_size r.target r.found < u32_mod
    → (overruns k r ≡ false → length r.text + 1 ≤ r.size)
      × (overruns k r ≡ true → length r.text + 1 ≡ r.size + 1)
unfolding raw_size request_size
forge_request-size url k hs {r} h small =
    let s = forge_request-Steps url k hs h in
    let fits = length-host_value r.target r.found.host s.port in
    let text = length-request_text r.target r.found k hs in
    let same : length r.text ≡ length (request_text r.target r.found k hs) = ap length s.text in
    let big = length-host_value_big r.target s.port in
    (λ o. ground (arith, s, fits, text, same), λ o. ground (arith, s, big, text, same))
