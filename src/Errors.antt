-- ===== src/Errors.antt =====
-- errors.go: an error of the broker with the component and the operation that it comes from.
use Prim.Native.String.{◌++◌}
use eamqp.Base.{String, Bool, false, Option, none, some}
use eamqp.Base.Int.{ℤ}

-- amqp.Error.
pub record AmqpError : Type 0 where
  pub code : ℤ
  pub reason : String
  pub server : Bool
  pub recover : Bool

pub record ClientError : Type 0 where
  pub amqp_err : Option AmqpError
  pub component : String
  pub op : String

-- What fmt.Sprintf makes of an integer and of a Boolean.
pub record Format : Type 0 where
  pub of_int : ℤ → String
  pub of_bool : Bool → String

where_from : ClientError → String
where_from e = "eamqp[" ++ e.component ++ "." ++ e.op ++ "]: "

told : Format → ClientError → Option AmqpError → String
told format e none = where_from e ++ "unknown error"
told format e (some a) =
    where_from e
    ++ a.reason
    ++ " (code="
    ++ format.of_int a.code
    ++ ", server="
    ++ format.of_bool a.server
    ++ ", recoverable="
    ++ format.of_bool a.recover
    ++ ")"

pub error_text : Format → ClientError → String
error_text format e = told format e e.amqp_err

pub is_retryable : ClientError → Bool
is_retryable e = elim e.amqp_err [ none ↦ false | some a ↦ a.recover ]

-- An interface value of type error: nil, or a pointer, which may itself be nil.
pub data Unwrapped : Type 0 where
  no_error : Unwrapped
  pointer : Option AmqpError → Unwrapped

pub unwrap : ClientError → Unwrapped
unwrap e = pointer e.amqp_err

pub wrap_error : Option AmqpError → String → String → Option ClientError
wrap_error none component op = none
wrap_error (some a) component op =
    some (record { amqp_err = some a; component = component; op = op })

-- What NotifyClose makes of a notification.
abbrev pub close_error : AmqpError → ClientError
close_error a = record { amqp_err = some a; component = "connection"; op = "close" }
