-- ===== src/Paper.antt =====
-- execution/paper_engine.py and execution/paper_order.py: `PaperTradingEngine`, a simulated exchange.
-- Sums of money are integers, and what the code draws at random is an argument.
pub mod Accounting
pub mod Closings
pub mod Saved
mod Tests
use quantluna.Prelude.{
  ℕ, suc, Bool, true, false, not, ◌&&◌, Option, none, some, List, [], ◌∷◌, ◌++◌, if◌then◌else◌,
}
use quantluna.Prelude.Int.{ℤ, pos, ◌+ℤ◌, ◌-ℤ◌}
use quantluna.Prelude.Dict.{Dict, lookup, insert, erase}
use quantluna.Prelude.Float.{Float}

-- `OrderSide`, `OrderType` and `OrderStatus`
pub data Side : Type 0 where
  buy sell : Side

pub data Kind : Type 0 where
  market limit : Kind

pub data Status : Type 0 where
  pending filled partial rejected : Status

-- `PaperOrder`
pub record Order {ℓ} (W : Type ℓ) : Type ℓ where
  pub symbol : ℕ
  pub side : Side
  pub order_type : Kind
  pub qty : W
  pub price : Option W
  pub filled_qty : W
  pub avg_fill_price : W
  pub status : Status
  pub commission : ℤ

-- `Position`
pub record Position {ℓ} (W : Type ℓ) : Type ℓ where
  pub side : Side
  pub qty : W
  pub entry_price : W

-- A trade, with its profit.
pub record Trade {ℓ} (W : Type ℓ) : Type ℓ where
  pub symbol : ℕ
  pub position : Position W
  pub exit_price : W
  pub pnl : ℤ

-- The store is left out where there is none; it has the positions that were saved last.
pub record Engine {ℓ} (W : Type ℓ) : Type ℓ where
  pub equity : ℤ
  pub realised_pnl : ℤ
  pub positions : Dict (Position W)
  pub trades : List (Trade W)
  pub orders : List (Order W)
  pub equity_curve : List (ℤ × ℤ)
  pub store : Option (Dict (Position W))

-- Numbers of the code, and its products as sums of money: the profit of a quantity from an entry to an
-- exit price on the long side and on the short side, and the fees of a taker and of a maker.
pub record Rules {ℓ} (W : Type ℓ) : Type ℓ where
  pub initial_capital : ℤ
  pub partial_threshold : W
  pub limit_tolerance : W
  pub round6 : W → W
  pub round8 : W → W
  pub gain : Side → W → W → W → ℤ
  pub taker_fee : W → W → ℤ
  pub maker_fee : W → W → ℤ

-- The draws of `_fill_market`: the slip as a fraction, and the fraction filled, where the draw for a
-- partial fill came out.
pub record Draw {ℓ} (W : Type ℓ) : Type ℓ where
  pub slip_frac : W
  pub fraction : Option W

abbrev pub is_filled : Status → Bool
is_filled filled = true
is_filled _ = false

abbrev pub same_side : Side → Side → Bool
same_side buy buy = true
same_side sell sell = true
same_side _ _ = false

module _ {ℓ} {W : Type ℓ} where
  abbrev pub open_position : Order W → Position W
  open_position o = record { side = o.side; qty = o.filled_qty; entry_price = o.avg_fill_price }

  -- `_save_positions`
  abbrev pub save_positions : Engine W → Engine W
  save_positions e = record e { store = elim e.store [ none ↦ none | some _ ↦ some e.positions ] }

  -- `_record_equity`
  abbrev pub record_equity : Engine W → Engine W
  record_equity e = record e { equity_curve = e.equity_curve ++ ((e.equity, e.realised_pnl) ∷ []) }

abbrev slipped {ℓ} : {W : Type ℓ} ⦃f : Float W⦄ → Side → W → W → W
slipped ⦃f⦄ buy mid_price slip = f.add mid_price slip
slipped ⦃f⦄ sell mid_price slip = f.sub mid_price slip

module _ {ℓ} {W : Type ℓ} ⦃f : Float W⦄ (rules : Rules W) where
  abbrev pub new : Bool → Engine W
  new has_store = record {
    equity = rules.initial_capital;
    realised_pnl = pos 0;
    positions = [];
    trades = [];
    orders = [];
    equity_curve = (rules.initial_capital, pos 0) ∷ [];
    store = if has_store then some [] else none;
  }

  -- `_fill_market`
  unfoldable pub fill_market : Draw W → W → Order W → Order W
  fill_market draw mid_price o =
      if f.le mid_price f.nought
      then record o { status = rejected }
      else (let slip = f.mul mid_price draw.slip_frac in
          let price = slipped o.side mid_price slip in
          let large = f.lt rules.partial_threshold (f.mul price o.qty) in
          elim (if large then draw.fraction else none) [
            | some part ↦ record o {
              status = partial;
              filled_qty = rules.round8 (f.mul o.qty part);
              avg_fill_price = rules.round6 price;
              commission = rules.taker_fee price (f.mul o.qty part);
            }
            | none ↦ record o {
              status = filled;
              filled_qty = rules.round8 o.qty;
              avg_fill_price = rules.round6 price;
              commission = rules.taker_fee price o.qty;
            }
          ])

  -- `_fill_limit`
  unfoldable pub fill_limit : W → W → Order W → Order W
  fill_limit limit_price mid_price o =
      if f.le (f.abs (f.sub limit_price mid_price)) (f.mul mid_price rules.limit_tolerance)
      then record o {
        status = filled;
        filled_qty = o.qty;
        avg_fill_price = rules.round6 limit_price;
        commission = rules.maker_fee limit_price o.qty;
      }
      else record o { status = pending }

  -- A position is closed with a profit: what `close_position` and `_update_position` do alike.
  abbrev pub settle : ℕ → Position W → W → ℤ → Engine W → Engine W
  settle symbol p exit_price net e = record e {
    realised_pnl = e.realised_pnl +ℤ net;
    equity = e.equity +ℤ net;
    positions = erase symbol e.positions;
    trades =
        e.trades
        ++ (record { symbol = symbol; position = p; exit_price = exit_price; pnl = net } ∷ []);
  }

  -- `close_position`
  unfoldable pub close_position : ℕ → W → Engine W → Engine W
  close_position symbol price e = elim (lookup symbol e.positions) [
    | none ↦ e
    | some p ↦
        let net = rules.gain p.side p.qty p.entry_price price -ℤ rules.taker_fee price p.qty in
        record_equity (save_positions (settle symbol p price net e))
  ]

  -- The order adds to a position.
  abbrev average_in : Order W → Position W → Position W
  average_in o p =
      let total = f.add p.qty o.filled_qty in
      record p {
        qty = total;
        entry_price =
            f.div (f.add (f.mul p.entry_price p.qty) (f.mul o.avg_fill_price o.filled_qty)) total;
      }

  -- The order meets a position.
  unfoldable pub meet : Order W → Position W → Engine W → Engine W
  meet o p e =
      if same_side p.side o.side
      then record e { positions = insert o.symbol (average_in o p) e.positions }
      else if f.le p.qty o.filled_qty
      then save_positions (
          settle o.symbol p o.avg_fill_price
            (rules.gain p.side p.qty p.entry_price o.avg_fill_price -ℤ o.commission) e)
      else save_positions (record e {
        positions = insert o.symbol (record p { qty = f.sub p.qty o.filled_qty }) e.positions;
      })

  -- `_update_position` before the commission
  unfoldable pub apply_fill : Order W → Engine W → Engine W
  apply_fill o e = elim (lookup o.symbol e.positions) [
    | some p ↦ meet o p e
    | none ↦ save_positions (record e { positions = insert o.symbol (open_position o) e.positions })
  ]

  -- `_update_position`
  unfoldable pub update_position : Order W → Engine W → Engine W
  update_position o e =
      let after = apply_fill o e in record after { equity = after.equity -ℤ o.commission }

  abbrev pub new_order : ℕ → Side → Kind → W → Option W → Order W
  new_order symbol side kind qty price = record {
    symbol = symbol;
    side = side;
    order_type = kind;
    qty = qty;
    price = price;
    filled_qty = f.nought;
    avg_fill_price = f.nought;
    status = pending;
    commission = pos 0;
  }

  -- The fill of `submit_order`; a limit price of 0 counts as none.
  unfoldable pub fill_order : Draw W → W → Order W → Order W
  fill_order draw mid_price o = elim o.order_type [
    | market ↦ fill_market draw mid_price o
    | limit ↦ fill_limit (elim o.price [ some p ↦ p | none ↦ mid_price ]) mid_price o
  ]

  -- The rest of `submit_order`, for an order that was filled or not.
  unfoldable pub take_order : Order W → Engine W → Engine W
  take_order o e =
      let noted = record e { orders = e.orders ++ (o ∷ []) } in
      if is_filled o.status then record_equity (save_positions (update_position o noted)) else noted

  -- `submit_order`
  unfoldable pub submit_order : Draw W → ℕ → Side → Kind → W → W → Option W → Engine W → Engine W
  submit_order draw symbol side kind qty mid_price price e =
      take_order (fill_order draw mid_price (new_order symbol side kind qty price)) e

  -- `reset`
  unfoldable pub reset : Engine W → Engine W
  reset e = record (new false) { store = elim e.store [ none ↦ none | some _ ↦ some [] ] }
