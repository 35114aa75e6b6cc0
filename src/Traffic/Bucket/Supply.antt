-- ===== src/Traffic/Bucket/Supply.antt =====
-- core/bybit_traffic_controller.py: how many tokens a bucket gives out.
use quantluna.Prelude.{
  ℕ, ◌+◌, ap, ◌↔◌, ◌-◌, ◌*◌, ◌≤◌, ◌≡◌, List, [], ◌∷◌, true, arith, if◌then◌else◌,
}
use quantluna.Traffic.Bucket.{Rate, Bucket, refill, acquire, full}

-- The calls of `acquire` at these times that succeed.
pub granted : Rate → List ℕ → Bucket → ℕ
granted r [] b = 0
granted r (t ∷ ts) b = let (b', got) = acquire r t b in (if got then 1 else 0) + granted r ts b'

-- The times do not fall and lie between `start` and `end`.
abbrev pub IsBetween : ℕ → ℕ → List ℕ → Type 0
IsBetween start end [] = start ≤ end
IsBetween start end (t ∷ ts) = (start ≤ t) × IsBetween t end ts

start-le-end : (start end : ℕ) (ts : List ℕ) → IsBetween start end ts → start ≤ end
start-le-end start end [] h = h
start-le-end start end (t ∷ ts) h = omega (arith, start-le-end t end ts h.1)

acquire_supply :
    (r : Rate) (t : ℕ) (b : Bucket)
    → let (b', got) = acquire r t b in
      ((if got then 1 else 0) * r.unit + b'.tokens ≤ b.tokens + (t - b.last) * r.rate)
      × (b'.last ≡ t)
unfolding acquire refill
acquire_supply r t b = ground arith

granted_supply :
    (r : Rate) (end : ℕ) (ts : List ℕ) (b : Bucket)
    → IsBetween b.last end ts
    → granted r ts b * r.unit ≤ b.tokens + (end - b.last) * r.rate
unfolding granted
granted_supply r end [] b h = omega arith
granted_supply r end (t ∷ ts) b h =
    let (spent, stamped) = acquire_supply r t b in
    let later = granted_supply r end ts (acquire r t b).0 (rw stamped h.1) in
    let split : end - b.last ≡ (t - b.last) + (end - t) =
      omega (arith, start-le-end t end ts h.1) in
    omega (arith, spent, rw stamped at later, ap (λ (x : ℕ). x * r.rate) split)

-- A full bucket grants, at times that do not fall and lie between `start` and `end`, no more than
-- its burst and what the rate brings in the time between: `granted` tokens are at most
-- `burst + (end - start) * rate`, all in parts of a token.
pub granted-le :
    (r : Rate) (start end : ℕ) (ts : List ℕ)
    → IsBetween start end ts
    → granted r ts (full r start) * r.unit ≤ r.burst * r.unit + (end - start) * r.rate
unfolding full
granted-le r start end ts h = granted_supply r end ts (full r start) h

-- No call leaves more tokens than the burst, nor less than none, and a token is taken exactly when
-- the refilled bucket holds one.
pub acquire_exact :
    (r : Rate) (now : ℕ) (b : Bucket)
    → let (b', got) = acquire r now b in
      (b'.tokens ≤ r.burst * r.unit)
      × (b'.tokens + (if got then r.unit else 0) ≡ refill r now b)
      × ((got ≡ true) ↔ (r.unit ≤ refill r now b))
unfolding acquire refill
acquire_exact r now b = ground arith
