-- ===== src/Iotop/Diff/Counters.antt =====
-- The differences that iotop shows (`create_diff`, iotop-master/src/views.c).
use reading_comment.Common.{
  ℕ, suc, ◌-◌, ◌<◌, ◌≡◌, ◌≢◌, ◌⊎◌, inl, inr, ◌==◌, false, refl, ap, Option, none, some, List, [],
  ◌∷◌, length, ltb, if◌then◌else◌, u64_mod, arith,
}
use native.Mathlib.Decide.{ℕ_discrete}
use reading_comment.Iotop.Types.{Doubles, XxxidStats, Params}
use reading_comment.Iotop.Diff.{findpid, chainlen, rrv, difference, differences, create_diff}

-- What a counter of 64 bits has grown by, or one less than it has fallen by.
abbrev pub grown_by : ℕ → ℕ → ℕ
grown_by from to = if ltb to from then from - to - 1 else to - from

rrv_lem : (to from : ℕ) → to < u64_mod → from < u64_mod → rrv to from ≡ grown_by from to
unfolding rrv
rrv_lem to from h k = ground arith

module _ {D : Type 0} where
  -- The four counters are 64-bit numbers.
  pub record InRange (s : XxxidStats D) : Type 0 where
    pub read : s.read_bytes < u64_mod
    pub write : s.write_bytes < u64_mod
    pub swapin : s.swapin_delay_total < u64_mod
    pub blkio : s.blkio_delay_total < u64_mod

  -- The counters of `e` are those of `c` less those of `o`, if there is an `o`, and else 0.
  abbrev pub Counted : XxxidStats D → Option (XxxidStats D) → XxxidStats D → Type 0
  Counted c none e =
      (e.read_bytes ≡ 0)
      × (e.write_bytes ≡ 0)
      × (e.swapin_delay_total ≡ 0)
      × (e.blkio_delay_total ≡ 0)
  Counted c (some o) e =
      (e.read_bytes ≡ grown_by o.read_bytes c.read_bytes)
      × (e.write_bytes ≡ grown_by o.write_bytes c.write_bytes)
      × (e.swapin_delay_total ≡ grown_by o.swapin_delay_total c.swapin_delay_total)
      × (e.blkio_delay_total ≡ grown_by o.blkio_delay_total c.blkio_delay_total)

  abbrev pub AllInRange : List (XxxidStats D) → Type 0
  AllInRange [] = Unit
  AllInRange (s ∷ l) = InRange s × AllInRange l

  -- `o` is the first process of the list with the number, or none when no process of it has the
  -- number.
  abbrev pub FirstWith : ℕ → List (XxxidStats D) → Option (XxxidStats D) → Type 0
  FirstWith tid [] none = Unit
  FirstWith tid [] (some o) = ⊥
  FirstWith tid (s ∷ l) o = ((s.tid ≡ tid) × (o ≡ some s)) ⊎ ((s.tid ≢ tid) × FirstWith tid l o)

  findpid-FirstWith : (ps : List (XxxidStats D)) (tid : ℕ) → FirstWith tid ps (findpid ps tid)
  unfolding findpid
  findpid-FirstWith [] tid = tt
  findpid-FirstWith (s ∷ ps) tid = elim (ℕ_discrete s.tid tid) [
    | yes e ↦ inl (e, ground (arith, e))
    | no d ↦
        let away : (s.tid == tid) ≡ false = ground (arith, d) in
        inr (d, rw away (findpid-FirstWith ps tid))
  ]

  -- One difference for each process of `cs`, in order, counted from the first process of `ps` with
  -- the same number.
  abbrev pub Differences : List (XxxidStats D) → List (XxxidStats D) → List (XxxidStats D) → Type 0
  Differences [] ps [] = Unit
  Differences (c ∷ cs) ps (e ∷ es) =
      (e.tid ≡ c.tid)
      × ((o : Option (XxxidStats D)) × FirstWith c.tid ps o × Counted c o e)
      × Differences cs ps es
  Differences _ ps _ = ⊥

  InRange-findpid :
      (ps : List (XxxidStats D)) (tid : ℕ) {o : XxxidStats D}
      → AllInRange ps
      → findpid ps tid ≡ some o
      → InRange o × (o.tid ≡ tid)
  unfolding findpid
  InRange-findpid [] tid v e = cc
  InRange-findpid (s ∷ ps) tid {o} v e = ground (arith, InRange-findpid ps tid {o = o} v.1)

  chainlen-length : (l : List (XxxidStats D)) → chainlen l ≡ length l
  unfolding chainlen
  chainlen-length [] = refl
  chainlen-length (s ∷ l) = ap suc (chainlen-length l)

module _ {D : Type 0} ⦃d : Doubles D⦄ (p : Params) where
  difference-Counted :
      (c : XxxidStats D) (o : Option (XxxidStats D))
      → InRange c
      → ((s : XxxidStats D) → o ≡ some s → InRange s)
      → ((difference p c o).tid ≡ c.tid) × Counted c o (difference p c o)
  unfolding difference
  difference-Counted c none v w = (refl, (refl, refl, refl, refl))
  difference-Counted c (some s) v w =
      let k = w s refl in
      (
        refl,
        (
          rrv_lem c.read_bytes s.read_bytes v.read k.read,
          rrv_lem c.write_bytes s.write_bytes v.write k.write,
          rrv_lem c.swapin_delay_total s.swapin_delay_total v.swapin k.swapin,
          rrv_lem c.blkio_delay_total s.blkio_delay_total v.blkio k.blkio,
        ),
      )

  differences_lem :
      (cs ps : List (XxxidStats D))
      → AllInRange cs
      → AllInRange ps
      → Differences cs ps (differences p cs ps)
  unfolding differences
  differences_lem [] ps v w = tt
  differences_lem (c ∷ cs) ps v w =
      let (same, counted) =
        difference-Counted c (findpid ps c.tid) v.0 (λ s e. (InRange-findpid ps c.tid w e).0) in
      (same, (findpid ps c.tid, findpid-FirstWith ps c.tid, counted), differences_lem cs ps v.1 w)

  -- What `create_diff` may return for the two chains.
  abbrev pub Created :
      List (XxxidStats D) → List (XxxidStats D) → Option (List (XxxidStats D) × ℕ) → Type 0
  Created cs ps none = cs ≡ []
  Created cs ps (some (es, len)) = Differences cs ps es × (len ≡ length cs)

  -- `create_diff`, on counters of 64 bits, returns NULL for no process, and else one difference for
  -- each process, in order: its counters are 0 when the last sample has no process of its number, and
  -- else what they have grown by since the first one there of its number, or, for a counter that has
  -- fallen, one less than it has fallen by.
  pub create_diff-Created :
      (cs ps : List (XxxidStats D))
      → AllInRange cs
      → AllInRange ps
      → Created cs ps (create_diff p cs ps)
  unfolding create_diff
  create_diff-Created [] ps v w = refl
  create_diff-Created (c ∷ cs) ps v w = (differences_lem (c ∷ cs) ps v w, chainlen-length (c ∷ cs))
