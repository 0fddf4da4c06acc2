-- ===== src/Order/Intent.antt =====
-- A sized order: signald/order/guard.py, `OrderIntent`.
use trading_execution.Prelude.{Bool, Option, String}
use trading_execution.Prelude.Int.{ℤ}
use trading_execution.Prelude.Float.{Float}

pub record OrderIntent : Type 0 where
  pub intent_id : String
  pub sleeve : String
  pub symbol : String
  pub side : String
  pub qty : ℤ
  pub order_type : String
  pub limit_price : Option Float
  pub stop_price : Option Float
  pub tif : String
  pub client_order_id : String
  pub created_at : String
  pub parent_proposal_id : Option String
  pub extended_hours : Bool
