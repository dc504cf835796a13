-- ===== src/Examples/Transaction.antt =====
-- examples/transaction/main.go: three transactions, the second rolled back.
pub mod Drained
use eamqp.Base.{ℕ, zero, suc, String, true, false, Option, none, some, Error, Result, ok, err}
use eamqp.Text.{Text, codes}
use eamqp.Amqp.Values.{Delivery}
use eamqp.Amqp.Raw.{Raw}
use eamqp.Channel.{Channel}
use eamqp.Channel.Topology
use eamqp.Channel.Messages
use eamqp.Examples.Program.{
  Run, Host, ◌>>=◌, ◌>>◌, pure, must, attempt, json, try_publish, with_channel,
}

module _ {S : Type 0} (raw : Raw S) where
  -- txPublish
  unfoldable pub tx_publish : String → Text → Run S (Option Error)
  tx_publish key body = try_publish raw "tx.ex" key (json body)

  -- After a Get: an error or an empty queue ends the loop.
  unfoldable pub count_on :
      (Channel S → S → Option ℕ × Channel S × S)
      → Result (Option Delivery) × Channel S × S
      → Option ℕ × Channel S × S
  count_on again (err e, ch, s) = (some 0, ch, s)
  count_on again (ok none, ch, s) = (some 0, ch, s)
  count_on again (ok (some d), ch, s) =
      let (n, ch', s') = again ch s in (elim n [ none ↦ none | some k ↦ some (suc k) ], ch', s')

  -- countQueue on fuel, one unit for each Get; `none` is for a loop that is still running.
  unfoldable pub count_messages : ℕ → String → Channel S → S → Option ℕ × Channel S × S
  unfolding count_on
  count_messages zero name ch s = (none, ch, s)
  count_messages (suc fuel) name ch s =
      count_on (count_messages fuel name) (Messages.get raw name false ch s)

  declare_account : String → Run S (Unit {0})
  declare_account q = do
    _ ← Topology.queue_declare raw q true false false false none
    must (Topology.queue_bind raw q q "tx.ex" false none)

  -- Tx, and a message for each of the two accounts.
  transfer : Text → Text → Run S (Unit {0})
  unfolding tx_publish
  transfer credit debit = do
    must (Messages.tx raw)
    _ ← tx_publish "tx.account.a" credit
    _ ← tx_publish "tx.account.b" debit
    pure tt

  unfoldable pub main : Host S → ℕ → S → Result (Unit {0}) × S
  unfolding declare_account transfer count_messages
  main host fuel = with_channel raw host (codes "amqp.default") (λ client. do
    must (Topology.exchange_declare raw "tx.ex" "direct" true false false false none)
    declare_account "tx.account.a"
    declare_account "tx.account.b"
    _ ← attempt (Topology.queue_purge raw "tx.account.a" false)
    _ ← attempt (Topology.queue_purge raw "tx.account.b" false)
    transfer (codes "{\"account\": \"A\", \"amount\": 100, \"type\": \"credit\"}")
        (codes "{\"account\": \"B\", \"amount\": 100, \"type\": \"debit\"}")
    must (Messages.tx_commit raw)
    transfer (codes "{\"account\": \"A\", \"amount\": 50, \"type\": \"credit\"}")
        (codes "{\"account\": \"B\", \"amount\": 50, \"type\": \"debit\"}")
    must (Messages.tx_rollback raw)
    transfer (codes "{\"account\": \"A\", \"amount\": 75, \"type\": \"credit\"}")
        (codes "{\"account\": \"B\", \"amount\": 75, \"type\": \"debit\"}")
    must (Messages.tx_commit raw)
    _ ← attempt (count_messages fuel "tx.account.a")
    _ ← attempt (count_messages fuel "tx.account.b")
    pure tt)
