-- ===== src/TcpStreams/Slots.antt =====
-- The array of TCP streams of HAPPlatformTCPStreamManager.c: its streams that are in use.
use homekit_bridge.Base.{
  ℕ, zero, suc, ◌+◌, ◌≤◌, ◌<◌, ◌≡◌, inl, inr, refl, ap, sym, ◌∙◌, Bool, false, some, ◌==◌,
  if◌then◌else◌, arith, Bool-cases, put, put_other, put_same,
}
use homekit_bridge.TcpStreams.{Stream, is_some, free_from}

abbrev pub in_use : Stream → Bool
in_use s = is_some s.descriptor

-- How many of the `k` streams from `i` on are in use.
abbrev pub used : (ℕ → Stream) → ℕ → ℕ → ℕ
used ss i zero = 0
used ss i (suc k) = if in_use (ss i) then suc (used ss (suc i) k) else used ss (suc i) k

abbrev pub one : Bool → ℕ
one b = if b then 1 else 0

-- Where not all streams are in use, a free one is found.
pub free_from-found :
    (ss : ℕ → Stream) (i k : ℕ)
    → used ss i k < k
    → (j : ℕ) × (free_from ss i k ≡ some j) × (i ≤ j) × (j < i + k) × (in_use (ss j) ≡ false)
unfolding free_from
free_from-found ss i zero h = absurd (omega (arith, h))
free_from-found ss i (suc k) h = elim (Bool-cases (in_use (ss i))) [
  | inl q ↦
      let (j, e, l, m, f) = free_from-found ss (suc i) k (ground (arith, h, q)) in
      (j, ground (arith, q, e), omega (arith, l), omega (arith, m), f)
  | inr q ↦ (i, ground (arith, q), omega arith, omega arith, q)
]

used_above :
    (ss : ℕ → Stream) (j : ℕ) (s : Stream) (i k : ℕ) → j < i → used (put ss j s) i k ≡ used ss i k
used_above ss j s i zero h = refl
used_above ss j s i (suc k) h =
    let e : put ss j s i ≡ ss i = put_other ss j s i (ground (arith, h)) in
    let r = used_above ss j s (suc i) k (omega (arith, h)) in rw (e, r) refl

-- What a change of one stream does to their number.
pub used-put :
    (ss : ℕ → Stream) (j : ℕ) (s : Stream) (i k : ℕ)
    → i ≤ j
    → j < i + k
    → used (put ss j s) i k + one (in_use (ss j)) ≡ used ss i k + one (in_use s)
used-put ss j s i zero h l = absurd (omega (arith, h, l))
used-put ss j s i (suc k) h l = elim (Bool-cases (j == i)) [
  | inl q ↦
      let e : j ≡ i = ground (arith, q) in
      let p : put ss j s i ≡ s = ap (put ss j s) (sym e) ∙ put_same ss j s in
      let a : in_use (ss j) ≡ in_use (ss i) = ap (λ x. in_use (ss x)) e in
      let r = used_above ss j s (suc i) k (omega (arith, e)) in rw (p, r, a) (ground arith)
  | inr q ↦
      let e : put ss j s i ≡ ss i = put_other ss j s i q in
      let r = used-put ss j s (suc i) k (ground (arith, h, q)) (omega (arith, l)) in
      rw e (ground (arith, r))
]

pub used_bound : (ss : ℕ → Stream) (i k : ℕ) → used ss i k ≤ k
used_bound ss i zero = omega arith
used_bound ss i (suc k) = let h = used_bound ss (suc i) k in ground (arith, h)
