-- ===== src/Weighttp/Options/Sane.antt =====
-- What the settings of weighttp (weighttp-master/src/weighttp.c) satisfy once they are accepted.
use reading_comment.Common.{
  ℕ, ◌<◌, ◌≤◌, ◌≡◌, ◌⊎◌, inl, inr, refl, List, [], ◌∷◌, arith, u8_mod, u16_mod, u64_mod,
  minus_one64,
}
use reading_comment.Weighttp.Number.Values.{str_to_uint64-lt}
use reading_comment.Weighttp.Options.{
  Opt, requests, threads, Settings, Parsed, exit, run, take_option, take_options, check_settings,
  read_arguments, defaults,
}

Parsed-cases : (p : Parsed) → ((n : ℕ) × (p ≡ exit n)) ⊎ ((s : Settings) × (p ≡ run s))
Parsed-cases (exit n) = inl (n, refl)
Parsed-cases (run s) = inr (s, refl)

-- Each field holds what its type can.
pub record InRange (s : Settings) : Type 0 where
  pub requests : s.req_count < u64_mod
  pub threads : s.thread_count < u8_mod
  pub clients : s.concur_count < u16_mod

take_option-InRange :
    (o : Opt) (s : Settings) {t : Settings} → take_option o s ≡ run t → InRange s → InRange t
unfolding take_option
take_option-InRange (requests arg) s h v = ground (arith, str_to_uint64-lt arg)
take_option-InRange (threads arg) s h v = ground arith
take_option-InRange _ s h v = ground arith

take_options-InRange :
    (os : List Opt) (s : Settings) {t : Settings}
    → take_options os s ≡ run t
    → InRange s
    → InRange t
unfolding take_options
take_options-InRange [] s h v = ground arith
take_options-InRange (o ∷ os) s {t} h v = elim (Parsed-cases (take_option o s)) [
  | inl (n, e) ↦ ground arith
  | inr (s', e) ↦ take_options-InRange os s' (ground arith) (take_option-InRange o s e v)
]

-- Settings that can be run with.
pub record IsSane (s : Settings) : Type 0 where
  pub threads_pos : 0 < s.thread_count
  pub threads_le : s.thread_count ≤ s.concur_count
  pub clients_le : s.concur_count ≤ s.req_count
  pub in_range : InRange s
  pub requests_given : s.req_count < minus_one64

check_settings-IsSane :
    (left : ℕ) (s : Settings) {t : Settings}
    → InRange s
    → check_settings left s ≡ run t
    → (t ≡ s) × IsSane s × (left ≡ 1)
unfolding check_settings
check_settings-IsSane left s v h = ground arith

-- Settings that the checks accept are sane: from 1 to 255 threads, no more threads than clients, no
-- more clients than requests, fewer than UINT64_MAX requests; and one argument, the url, is left.
pub read_arguments-IsSane :
    (os : List Opt) (left : ℕ) {s : Settings}
    → read_arguments os left ≡ run s
    → IsSane s × (left ≡ 1)
unfolding read_arguments
read_arguments-IsSane os left {s} h = elim (Parsed-cases (take_options os defaults)) [
  | inl (n, e) ↦ ground arith
  | inr (t, e) ↦ ground (
    arith,
    check_settings-IsSane left t {t = s} (take_options-InRange os defaults e (omega arith)),
  )
]
