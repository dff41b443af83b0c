-- ===== src/Grpc/OrderServer/Requests.antt =====
-- internal/adapters/grpc/order_server.go over order.go over the stores: what a request is answered.
use Prim.Native.String.{◌++◌}
use orders_go.Common.{◌≡◌, ◌≢◌, ◌∙◌, ap, sym, refl, String, true, false, none, some, []}
use orders_go.Go.Float64.{Float64, float_eq}
use orders_go.Go.Errors.{sentinel, message, Sentinel, error_is, error_text, sentinel_text}
use orders_go.Go.Effects.{P}
use orders_go.Orders.Saga.{status_succeeded, status_failed, failed_pending}
use orders_go.Orders.Service.{Reply, proceed, create_order}
use orders_go.Orders.Postgres.{postgres_service}
use orders_go.Orders.Postgres.Runs.{named_key, completed, create_order-replayed, create_order_new}
use orders_go.Grpc.Status.{Code}
use orders_go.Grpc.OrderServer.{
  CreateOrderRequest, Outcome, response, status_error, handle_create_order, map_order_error,
  says_payment_failed,
}
use orders_go.Db.Sql.{SagaRow, Db}
use orders_go.Db.Payments.{find_payment}
use orders_go.Db.Sagas.{find_key, find_order}
use orders_go.Db.Sagas.Idempotency.{matches, start_outcome}
use orders_go.Db.Drivers.{find_assignment}

-- What the handler makes of a reply.
abbrev outcome_of : Reply → Outcome
outcome_of (id, some e) = status_error (map_order_error e)
outcome_of (id, none) =
    response (record { order_id = id; status = "ok"; message = "order created" })

handle_lem :
    {W : Type 0} (f : String → Float64 → String → P W Reply) (req : CreateOrderRequest) (w w' : W)
    (r : Reply)
    → f req.user_id req.amount req.idempotency_key w ≡ some (r, w')
    → handle_create_order f req w ≡ some (outcome_of r, w')
unfolding handle_create_order
handle_lem f req w w' (id, none) e = rw (handle_create_order, e) refl
handle_lem f req w w' (id, some err) e = rw (handle_create_order, e) refl

-- An error of a sentinel or of a text of its own.
abbrev answer : Code → String → Outcome
answer code text = status_error (record { code = code; text = text })

create_order-unkeyed :
    (id driver user : String) (amount : Float64) (db : Db)
    → create_order (postgres_service id driver) user amount "" db
      ≡ some (("", some (sentinel Sentinel.idempotency_key_required)), db)
unfolding create_order
create_order-unkeyed id driver user amount db = refl

create_order-conflict :
    (id driver user key : String) (amount : Float64) (db : Db) (r : SagaRow)
    → db.fates ≡ []
    → key ≢ ""
    → find_key key db.sagas ≡ some r
    → matches r user amount ≡ false
    → create_order (postgres_service id driver) user amount key db
      ≡ some (("", some (sentinel Sentinel.idempotency_conflict)), db)
unfolding create_order proceed
create_order-conflict id driver user key amount db r ok named old other =
    rw (named_key key named) (rw ((start_outcome key id user amount db ok).2 r old other) refl)

failed_code :
    map_order_error (message "order already processed with status failed")
    ≡ record { code = Code.internal; text = "order already processed with status failed" }
unfolding map_order_error says_payment_failed error_text error_is
failed_code = refl

-- The answers that need no call of the payment or driver clients, and that of a new order, from a
-- database without faults to come: an empty key is an invalid argument; a key in use with another
-- payload is a failed precondition; a key whose order went through is answered with that order's id,
-- and one whose order failed with an internal error, and in these four cases the database stays as it
-- is; a request with a new key and a number as its amount, with an order that no table knows and a
-- driver's id, is answered with the order's id and leaves the order completed.
pub handle_create_order_outcome :
    (id driver : String) (req : CreateOrderRequest) (db : Db)
    → db.fates ≡ []
    → let key = req.idempotency_key in
      let answers = handle_create_order (create_order (postgres_service id driver)) req db in
      (key ≡ ""
        → answers
          ≡ some
              (answer Code.invalid_argument (sentinel_text Sentinel.idempotency_key_required), db))
      × ((r : SagaRow)
          → key ≢ ""
          → find_key key db.sagas ≡ some r
          → (matches r req.user_id req.amount ≡ false
              → answers
                ≡ some (
                  answer Code.failed_precondition (sentinel_text Sentinel.idempotency_conflict),
                  db,
                ))
            × (matches r req.user_id req.amount ≡ true
                → (r.status ≡ status_succeeded
                    → answers
                      ≡ some (
                        response (record {
                          order_id = r.order_id;
                          status = "ok";
                          message = "order created";
                        }),
                        db,
                      ))
                  × (r.status ≡ status_failed
                      → answers
                        ≡ some (
                          answer Code.internal "order already processed with status failed",
                          db,
                        ))))
      × (key ≢ ""
          → id ≢ ""
          → driver ≢ ""
          → float_eq req.amount req.amount ≡ true
          → find_key key db.sagas ≡ none
          → find_order id db.sagas ≡ none
          → find_payment id db.payments ≡ none
          → find_assignment id db.assignments ≡ none
          → answers
            ≡ some (
              response (record { order_id = id; status = "ok"; message = "order created" }),
              completed id driver req.user_id key req.amount db,
            ))
unfolding map_order_error error_is error_text
handle_create_order_outcome id driver req db ok =
    let key = req.idempotency_key in
    let user = req.user_id in
    let amount = req.amount in
    let calls = create_order (postgres_service id driver) in
    (
      λ blank.
          handle_lem calls req db db _ (
            ap (λ k. calls user amount k db) blank ∙ create_order-unkeyed id driver user amount db),
      λ r named old. (
        λ other.
            handle_lem calls req db db _
              (create_order-conflict id driver user key amount db r ok named old other),
        λ same.
            let replay = create_order-replayed id driver user key amount db r ok named old same in
            (
              λ won. handle_lem calls req db db _ (replay.0 won),
              λ lost.
                  handle_lem calls req db db _ (replay.1 (λ won. failed_pending (sym lost ∙ won)))
                  ∙ ap
                      (λ t. some (
                        status_error (
                            map_order_error
                              (message ("order already processed with status " ++ t))),
                        db,
                      ))
                      lost
                  ∙ ap (λ t. some (status_error t, db)) failed_code,
            ),
      ),
      λ named has_id has_driver num new free unpaid unassigned.
          handle_lem calls req db (completed id driver user key amount db) _ (
            create_order_new id driver user key amount db ok named has_id has_driver num new free
              unpaid unassigned),
    )
