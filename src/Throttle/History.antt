-- ===== src/Throttle/History.antt =====
-- execution/order_throttle.py: the throttle against a specification that keeps every order that
-- was ever allowed and counts the recent ones.
use quantluna.Prelude.{
  ℕ, ◌+◌, ◌≤◌, ◌≡◌, refl, Bool, true, false, List, [], ◌∷◌, ◌++◌, arith, leb, length, if◌then◌else◌,
  ◌==◌, ap, ◌∙◌,
}
use quantluna.Prelude.Dict.{lookup-insert}
use quantluna.Throttle.{Throttle, Config, allow, bucket, prune, requests, empty}
use quantluna.Throttle.Window.{length-prune-prune, length-prune-append}

-- The orders of a history that the window before `now` holds, for every symbol and for one.
abbrev pub recent : ℕ → ℕ → List (ℕ × ℕ) → ℕ
recent w now [] = 0
recent w now ((t, s) ∷ h) = (if leb now (t + w) then 1 else 0) + recent w now h

abbrev pub recent_of : ℕ → ℕ → ℕ → List (ℕ × ℕ) → ℕ
recent_of w now symbol [] = 0
recent_of w now symbol ((t, s) ∷ h) =
    (if symbol == s then (if leb now (t + w) then 1 else 0) else 0) + recent_of w now symbol h

-- The specification: an order passes if the last window holds fewer than `burst_cap` orders, and
-- fewer than `max_orders` of its symbol.
unfoldable pub passes : Config → ℕ → ℕ → List (ℕ × ℕ) → Bool
passes cfg now symbol h =
    if leb cfg.burst_cap (recent cfg.window now h)
    then false
    else (if leb cfg.max_orders (recent_of cfg.window now symbol h) then false else true)

unfoldable pub history : Config → List (ℕ × ℕ) → List (ℕ × ℕ) → List (ℕ × ℕ)
history cfg [] h = h
history cfg ((now, symbol) ∷ rs) h =
    history cfg rs (if passes cfg now symbol h then (now, symbol) ∷ h else h)

-- From the time `now` on, the state and the history have the same counts.
pub record Represents (w now : ℕ) (th : Throttle) (h : List (ℕ × ℕ)) : Type 0 where
  pub all : (t : ℕ) → now ≤ t → length (prune w t th.global_times) ≡ recent w t h
  pub own : (s t : ℕ) → now ≤ t → length (prune w t (bucket s th)) ≡ recent_of w t s h

-- Times that do not fall, from `now` on.
abbrev pub IsRising : ℕ → List (ℕ × ℕ) → Type 0
IsRising now [] = Unit
IsRising now ((t, s) ∷ rs) = (now ≤ t) × IsRising t rs

module _ (cfg : Config) where
  allow-passes :
      (now t symbol : ℕ) (th : Throttle) (h : List (ℕ × ℕ))
      → Represents cfg.window now th h
      → now ≤ t
      → (allow cfg t symbol th).1 ≡ passes cfg t symbol h
  unfolding allow passes
  allow-passes now t symbol th h r le = ground (arith, r.all t le, r.own symbol t le)

  allow_all :
      (now t symbol : ℕ) (th : Throttle) (h : List (ℕ × ℕ))
      → Represents cfg.window now th h
      → now ≤ t
      → (u : ℕ) → t ≤ u
      → let (th', passed) = allow cfg t symbol th in
        length (prune cfg.window u th'.global_times)
        ≡ recent cfg.window u (if passed then (t, symbol) ∷ h else h)
  unfolding allow
  allow_all now t symbol th h r le u lu = ground (
    arith,
    r.all u (omega arith),
    length-prune-prune cfg.window t u th.global_times lu,
    length-prune-append cfg.window u t (prune cfg.window t th.global_times),
  )

  allow_own :
      (now t symbol : ℕ) (th : Throttle) (h : List (ℕ × ℕ))
      → Represents cfg.window now th h
      → now ≤ t
      → (s u : ℕ) → t ≤ u
      → let (th', passed) = allow cfg t symbol th in
        length (prune cfg.window u (bucket s th'))
        ≡ recent_of cfg.window u s (if passed then (t, symbol) ∷ h else h)
  unfolding allow
  allow_own now t symbol th h r le s u lu =
      let own = prune cfg.window t (bucket symbol th) in
      ground (
        arith,
        r.own s u (omega arith),
        length-prune-prune cfg.window t u (bucket symbol th) lu,
        length-prune-append cfg.window u t own,
        lookup-insert s symbol own th.buckets,
        lookup-insert s symbol (own ++ (t ∷ [])) th.buckets,
      )

  allow-Represents :
      (now t symbol : ℕ) (th : Throttle) (h : List (ℕ × ℕ))
      → Represents cfg.window now th h
      → now ≤ t
      → let (th', passed) = allow cfg t symbol th in
        Represents cfg.window t th' (if passed then (t, symbol) ∷ h else h)
  allow-Represents now t symbol th h r le = record {
    all = allow_all now t symbol th h r le;
    own = allow_own now t symbol th h r le;
  }

  requests-eq-history :
      (rs : List (ℕ × ℕ)) (now : ℕ) (th : Throttle) (h : List (ℕ × ℕ))
      → IsRising now rs
      → Represents cfg.window now th h
      → (requests cfg rs th h).1 ≡ history cfg rs h
  unfolding requests history
  requests-eq-history [] now th h up r = refl
  requests-eq-history ((t, symbol) ∷ rs) now th h up r =
      let (th', passed) = allow cfg t symbol th in
      requests-eq-history rs t th' (if passed then (t, symbol) ∷ h else h) up.1
        (allow-Represents now t symbol th h r up.0)
      ∙ ap (λ (b : Bool). history cfg rs (if b then (t, symbol) ∷ h else h))
          (allow-passes now t symbol th h r up.0)

  -- On a clock that does not run back, a new throttle allows just the orders that the specification
  -- passes, which counts over all orders ever allowed: what pruning drops, and what a refusal
  -- leaves in the buckets, changes no decision.
  pub requests-history :
      (rs : List (ℕ × ℕ)) → IsRising 0 rs → (requests cfg rs empty []).1 ≡ history cfg rs []
  unfolding prune
  requests-history rs up =
      requests-eq-history rs 0 empty [] up (record { all = λ t le. refl; own = λ s t le. refl })
