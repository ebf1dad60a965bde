-- ===== src/Types.antt =====
-- engine/include/types.h and engine/include/event_listener.hpp: sides, orders and the events that
-- a book reports. Prices, ids and sequence numbers are plain numbers; a quantity is a `uint32_t`
-- and its operators wrap (`add32` and `sub32`).
use lob_project.Base.{ℕ, ◌-◌, u64_mod}

pub data Side : Type 0 where
  buy sell : Side

pub data OrderType : Type 0 where
  limit market : OrderType

pub record Order : Type 0 where
  pub id : ℕ
  pub price : ℕ
  pub seq_num : ℕ
  pub quantity : ℕ
  pub side : Side
  pub type : OrderType

-- The constructor of a limit order.
abbrev pub limit_order : ℕ → ℕ → ℕ → ℕ → Side → Order
limit_order id price seq_num quantity side = record {
  id = id;
  price = price;
  seq_num = seq_num;
  quantity = quantity;
  side = side;
  type = limit;
}

-- `UINT64_MAX` for a market buy and 0 for a market sell.
abbrev pub market_price : Side → ℕ
market_price buy = u64_mod - 1
market_price sell = 0

-- The constructor of a market order.
abbrev pub market_order : ℕ → ℕ → ℕ → Side → Order
market_order id seq_num quantity side = record {
  id = id;
  price = market_price side;
  seq_num = seq_num;
  quantity = quantity;
  side = side;
  type = market;
}

-- The calls of `EventListener`, which `TradingEngine` logs as the variant `Event`.
pub data Event : Type 0 where
  order_added : Order → Event
  order_canceled : ℕ → ℕ → ℕ → Event
  order_modified : ℕ → ℕ → Event
  order_filled : ℕ → ℕ → ℕ → ℕ → Event
