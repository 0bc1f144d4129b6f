-- ===== src/Weighttp/Headers/Progress.antt =====
-- The loop over the header lines (`client_parse`, weighttp-master/src/client.c) comes to an end.
use reading_comment.Common.{
  ℕ, zero, suc, ◌+◌, ◌-◌, ◌≤◌, ◌<◌, Bool, some, ◌≡◌, ◌≢◌, ◌⊎◌, refl, ap, arith, Option-cases, inl,
  inr,
}
use native.Mathlib.Decide.{ℕ_discrete}
use reading_comment.Common.Bytes.{Memory, store, strchr}
use reading_comment.Weighttp.Types.{Client, buffer_size}
use reading_comment.Weighttp.Status.{Flow, accept, reject, go_on}
use reading_comment.Weighttp.Headers.{header_line, header_round, header_case}

pub Flow-cases : (f : Flow) → (f ≡ accept) ⊎ ((f ≡ reject) ⊎ (f ≡ go_on))
Flow-cases accept = inl refl
Flow-cases reject = inr (inl refl)
Flow-cases go_on = inr (inr refl)

-- What `strchr` finds stands between the start and the terminator.
strchr-bounds :
    (fuel : ℕ) (m : Memory) (i b z : ℕ) {e : ℕ}
    → m z ≡ 0
    → b ≢ 0
    → i ≤ z
    → strchr fuel m i b ≡ some e
    → (i ≤ e) × (e < z) × (m e ≡ b)
unfolding strchr
strchr-bounds zero m i b z h n k f = absurd cc
strchr-bounds (suc fuel) m i b z {e} h n k f = elim (ℕ_discrete i z) [
  | yes at_end ↦ ground (arith, ap m at_end)
  | no before ↦ ground (arith, strchr-bounds fuel m (i + 1) b z {e = e})
]

header_line-keeps :
    (k : Bool) (c : Client) (str : ℕ) {c' : Client}
    → header_line k c str ≡ some c'
    → (c'.buffer ≡ c.buffer) × (c'.parser_offset ≡ c.parser_offset)
unfolding header_line
header_line-keeps k c str h = ground arith

-- A round that goes on with the next line has moved on, and keeps the terminator.
header_round-moves :
    (k : Bool) (c : Client) (e z : ℕ)
    → c.buffer z ≡ 0
    → c.parser_offset ≤ e
    → e < z
    → (header_round k c e).0 ≡ accept
    → let c' = (header_round k c e).1 in
      (c'.buffer z ≡ 0) × (c.parser_offset < c'.parser_offset) × (c'.parser_offset ≤ z)
unfolding header_round
header_round-moves k c e z h lo hi a =
    let cut : Client = record c { buffer = store c.buffer e 0 } in
    elim (ℕ_discrete (e + 1) z) [
      | yes last ↦ ground (arith, ap c.buffer last)
      | no before ↦ elim (Option-cases (header_line k cut c.parser_offset)) [
        | inl f ↦ ground arith
        | inr (c', f) ↦
            let (same, _) = header_line-keeps k cut c.parser_offset f in
            ground (arith, ap (λ (m : Memory). m z) same)
      ]
    ]

-- The loop over the header lines ends, in a buffer that is terminated at `z`, with fuel for each byte
-- up to `z`: no response makes it run on.
pub header_case_total :
    (fuel : ℕ) (k : Bool) (c : Client) (z : ℕ)
    → c.buffer z ≡ 0
    → c.parser_offset ≤ z
    → z - c.parser_offset < fuel
    → (r : Flow × Client) × (header_case fuel k c ≡ some r)
unfolding header_case
header_case_total zero k c z h o f = absurd (omega arith)
header_case_total (suc fuel) k c z h o f =
    elim (Option-cases (strchr buffer_size c.buffer c.parser_offset b'\r')) [
      | inl e ↦ ((accept, c), ground arith)
      | inr (e, found) ↦
          let (lo, hi, _) =
            strchr-bounds buffer_size c.buffer c.parser_offset b'\r' z h (omega arith) o found in
          elim (Flow-cases (header_round k c e).0) [
            | inl a ↦
                let (t, up, below) = header_round-moves k c e z h lo hi a in
                let (r, done) =
                  header_case_total fuel k (header_round k c e).1 z t below (omega arith) in
                (r, ground arith)
            | inr (inl a) ↦ ((reject, (header_round k c e).1), ground arith)
            | inr (inr a) ↦ ((go_on, (header_round k c e).1), ground arith)
          ]
    ]
