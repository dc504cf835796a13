-- ===== src/Amqp/Values.antt =====
-- The values that the code passes to amqp091-go and gets from it. Fields that the code never names
-- are left out. A Go channel, a deferred confirmation and a context are numbers: their identity.
use eamqp.Base.{ℕ, String, Bool, Option, List}
use eamqp.Base.Int.{ℤ}

-- The values of an amqp.Table that the code tells apart; `others` stands for any other, by a number.
pub data Value : Type 0 where
  null : Value
  text : String → Value
  bytes : List ℕ → Value
  number : ℤ → Value
  flag : Bool → Value
  others : ℕ → Value

-- `none` is the nil map.
abbrev pub Table : Type 0
Table = Option (List (String × Value))

-- amqp.Publishing; the body is its bytes, and 0 is the zero time.
pub record Publishing : Type 0 where
  pub headers : Table
  pub content_type : String
  pub delivery_mode : ℕ
  pub correlation_id : String
  pub reply_to : String
  pub timestamp : ℕ
  pub body : List ℕ

pub record Queue : Type 0 where
  pub name : String
  pub messages : ℕ
  pub consumers : ℕ

pub record Delivery : Type 0 where
  pub tag : ℕ
  pub headers : Table
  pub correlation_id : String
  pub reply_to : String
  pub body : List ℕ
