-- ===== src/Ports/Exchange.antt =====
-- src/exchangeport/exchange_port.py: the value types and the port. Its errors are in Exec.
use banxe_payment_core.Prelude.{ℤ, String, Bool, Option}
use banxe_payment_core.Exec.{Result}

pub data OrderSide : Type 0 where
  buy sell : OrderSide

pub data OrderType : Type 0 where
  market limit : OrderType

pub data OrderState : Type 0 where
  accepted filled partially rejected expired cancelled : OrderState

pub record RateQuote : Type 0 where
  pub base_asset : String
  pub quote_asset : String
  pub bid : String
  pub ask : String
  pub ttl_seconds : ℤ
  pub quoted_at : String

pub record OrderRequest : Type 0 where
  pub base_asset : String
  pub quote_asset : String
  pub side : OrderSide
  pub type : OrderType
  pub amount : String
  pub client_order_id : String
  pub correlation_id : String
  pub limit_price : Option String

pub record OrderResult : Type 0 where
  pub order_id : String
  pub state : OrderState
  pub filled_amount : String
  pub average_price : Option String
  pub fee : Option String
  pub raw : Option String

-- The injected exchange: what each method returns or raises, given the calls made before it.
pub record ExchangePort (History : Type 0) : Type 0 where
  pub get_rate : History → String → String → Result RateQuote
  pub place_order : History → OrderRequest → Result OrderResult
  pub cancel_order : History → String → Result Bool
  pub get_order_status : History → String → Result OrderResult
