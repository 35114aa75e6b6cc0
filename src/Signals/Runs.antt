-- ===== src/Signals/Runs.antt =====
-- strategy/signal.py: the signals that a `SignalGenerator` gives for one bar after another.
use quantluna.Prelude.{
  ℕ, zero, suc, ◌≡◌, refl, sym, ◌∙◌, true, false, List, [], ◌∷◌, ◌++◌, take, All,
}
use mathlib.Core.Path.{subst}
use quantluna.Prelude.Float.{Float}
use quantluna.Signals.State.{Signal, exit, partial_exit, Config, Numerics, Generator, new}
use quantluna.Signals.{Bar, generate_live}
use quantluna.Signals.Protocol.{
  Phase, idle, holding, Moves, stay_long, stay_short, close_part, leave, phase, IsValid,
  generate_live-IsStep, cold-IsStep, stay_out,
}

-- The signals of a whole run, as a path through the phases.
pub data Follows : Phase → List Signal → Phase → Type 0 where
  end : {p : Phase} → Follows p [] p
  next :
      {p q r : Phase} {s : Signal} {ss : List Signal}
      → Moves p s q
      → Follows q ss r
      → Follows p (s ∷ ss) r

-- What the engine says of one bar.
pub record Tick {ℓ} (W : Type ℓ) : Type ℓ where
  pub spread : W
  pub bar : Bar W

module _ {ℓ} {W : Type ℓ} ⦃f : Float W⦄ (num : Numerics W) (cfg : Config W) where
  -- `generate_live` for one bar after another, once the engine is warm.
  unfoldable pub live : List (Tick W) → Generator W → Generator W × List Signal
  live [] g = (g, [])
  live (t ∷ ts) g =
      let (after, v) = generate_live num cfg t.spread true t.bar g in
      let (final, ss) = live ts after in (final, v.signal ∷ ss)

  pub live-Follows :
      (ts : List (Tick W)) (g : Generator W)
      → IsValid g
      → let (final, ss) = live ts g in IsValid final × Follows (phase g) ss (phase final)
  unfolding live
  live-Follows [] g v = (v, end)
  live-Follows (t ∷ ts) g v =
      let (valid, move) = generate_live-IsStep num cfg t.spread t.bar g v in
      let (final, way) = live-Follows ts (generate_live num cfg t.spread true t.bar g).0 valid in
      (final, next move way)

  -- The same from a start at which so many bars are missing until the engine is warm: its filter counts
  -- them and stays warm after that.
  unfoldable pub live_from : ℕ → List (Tick W) → Generator W → Generator W × List Signal
  live_from cold [] g = (g, [])
  live_from zero (t ∷ ts) g = live (t ∷ ts) g
  live_from (suc cold) (t ∷ ts) g =
      let (after, v) = generate_live num cfg t.spread false t.bar g in
      let (final, ss) = live_from cold ts after in (final, v.signal ∷ ss)

  exits_of_nothing : (n : ℕ) → All (λ (s : Signal). s ≡ exit) (take n [])
  exits_of_nothing zero = tt
  exits_of_nothing (suc n) = tt

  cold-Follows :
      (cold : ℕ) (ts : List (Tick W)) (g : Generator W)
      → IsValid g
      → phase g ≡ idle
      → let (final, ss) = live_from cold ts g in
        IsValid final × Follows idle ss (phase final) × All (λ s. s ≡ exit) (take cold ss)
  unfolding live_from
  cold-Follows cold [] g v e = (v, subst (Follows idle []) (sym e) end, exits_of_nothing cold)
  cold-Follows zero (t ∷ ts) g v e =
      let way = live-Follows (t ∷ ts) g v in
      (way.0, subst (λ p. Follows p (live (t ∷ ts) g).1 (phase (live (t ∷ ts) g).0)) e way.1, tt)
  cold-Follows (suc cold) (t ∷ ts) g v e =
      let (valid, same, exits) = cold-IsStep num cfg t.spread t.bar g v in
      let (final, way, first) =
        cold-Follows cold ts (generate_live num cfg t.spread false t.bar g).0 valid (same ∙ e) in
      (final, next (subst (λ s. Moves idle s idle) (sym exits) stay_out) way, (exits, first))

  -- Whatever the bars, and however many of them come before the engine is warm, the signals of a new
  -- generator follow a protocol, those before it is warm are exits, and its state stays valid. Out of a trade there are exits until a
  -- signal enters on one side; in a trade that signal repeats, with one partial exit at most, until an
  -- exit. In a trade there is no cooldown, at least one bar was counted, and the signal fits the side;
  -- out of one, no side, no bar and no partial exit is kept.
  pub new-Follows :
      (cold : ℕ) (ts : List (Tick W))
      → let (final, ss) = live_from cold ts (new cfg) in
        IsValid final × Follows idle ss (phase final) × All (λ s. s ≡ exit) (take cold ss)
  new-Follows cold ts = cold-Follows cold ts (new cfg) (refl, refl, refl, refl) refl

pub data Has (s : Signal) : List Signal → Type 0 where
  found : {ss : List Signal} → Has s (s ∷ ss)
  later : {t : Signal} {ss : List Signal} → Has s ss → Has s (t ∷ ss)

-- After a partial exit no second one comes before the trade has been left.
Follows-exit :
    (ys zs : List Signal) {s : Signal} {q : Phase}
    → Follows (holding s true) (ys ++ partial_exit ∷ zs) q
    → Has exit ys
Follows-exit [] zs (next move way) = elim move [ ]
Follows-exit (y ∷ ys) zs (next stay_long way) = later (Follows-exit ys zs way)
Follows-exit (y ∷ ys) zs (next stay_short way) = later (Follows-exit ys zs way)
Follows-exit (y ∷ ys) zs (next leave way) = found

-- What follows a partial exit on a path.
Follows-partial :
    (xs ys : List Signal) {p q : Phase}
    → Follows p (xs ++ partial_exit ∷ ys) q
    → (s : Signal) × Follows (holding s true) ys q
Follows-partial [] ys (next close_part way) = (_, way)
Follows-partial (x ∷ xs) ys (next move way) = Follows-partial xs ys way

module _ {ℓ} {W : Type ℓ} ⦃f : Float W⦄ (num : Numerics W) (cfg : Config W) where
  -- Among the signals that a new generator gives for a list of bars, there is an exit between any two
  -- partial exits.
  pub partial_once :
      (ts : List (Tick W)) (xs ys zs : List Signal)
      → (live num cfg ts (new cfg)).1 ≡ xs ++ partial_exit ∷ (ys ++ partial_exit ∷ zs)
      → Has exit ys
  partial_once ts xs ys zs e =
      let way =
        subst (λ ss. Follows idle ss (phase (live num cfg ts (new cfg)).0)) e
          (live-Follows num cfg ts (new cfg) (refl, refl, refl, refl)).1 in
      Follows-exit ys zs (Follows-partial xs _ way).1
