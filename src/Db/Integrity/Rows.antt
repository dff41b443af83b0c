-- ===== src/Db/Integrity/Rows.antt =====
-- How the rows of the tables refer to one another after a change of the sagas.
use orders_go.Common.{◌≡◌, ◌≢◌, refl, String, none, List, [], ◌∷◌, arith, is_some}
use orders_go.Go.Int64.{Time}
use orders_go.Db.Sql.{Payment, SagaRow, StepRow, Assignment}
use orders_go.Go.Float64.{Float64}
use orders_go.Db.Payments.{refund_rows}
use orders_go.Db.Sagas.{find_key, find_order, status_rows}
use orders_go.Db.Integrity.{AreUnique, HaveOrders, HaveSagas, AreAssigned}

module _ (old new : List SagaRow)
    (kept : (j : String) → find_order j old ≢ none → find_order j new ≢ none) where
  pub HaveOrders-kept : (ps : List Payment) → HaveOrders old ps → HaveOrders new ps
  HaveOrders-kept [] h = tt
  HaveOrders-kept (p ∷ ps) h = (kept p.order_id h.0, HaveOrders-kept ps h.1)

  pub HaveSagas-kept : (ts : List StepRow) → HaveSagas old ts → HaveSagas new ts
  HaveSagas-kept [] h = tt
  HaveSagas-kept (t ∷ ts) h = (kept t.order_id h.0, HaveSagas-kept ts h.1)

  pub AreAssigned-kept : (rest : List Assignment) → AreAssigned old rest → AreAssigned new rest
  AreAssigned-kept [] h = tt
  AreAssigned-kept (a ∷ rest) h = (h.0, kept a.order_id h.1, AreAssigned-kept rest h.2)

pub find_order-cons :
    (r : SagaRow) (rs : List SagaRow) (j : String)
    → find_order j rs ≢ none
    → find_order j (r ∷ rs) ≢ none
unfolding find_order
find_order-cons r rs j h = ground (arith, h)

-- An update of the status finds the same keys and orders.
module _ (id status : String) (now : Time) where
  pub is_some-find_order-status_rows :
      (j : String) (rs : List SagaRow)
      → is_some (find_order j (status_rows id status now rs).1) ≡ is_some (find_order j rs)
  unfolding find_order status_rows
  is_some-find_order-status_rows j [] = refl
  is_some-find_order-status_rows j (r ∷ rs) = ground (arith, is_some-find_order-status_rows j rs)

  pub is_some-find_key-status_rows :
      (j : String) (rs : List SagaRow)
      → is_some (find_key j (status_rows id status now rs).1) ≡ is_some (find_key j rs)
  unfolding find_key status_rows
  is_some-find_key-status_rows j [] = refl
  is_some-find_key-status_rows j (r ∷ rs) = ground (arith, is_some-find_key-status_rows j rs)

  pub status_rows-AreUnique :
      (rs : List SagaRow) → AreUnique rs → AreUnique (status_rows id status now rs).1
  unfolding status_rows
  status_rows-AreUnique [] h = tt
  status_rows-AreUnique (r ∷ rs) h = ground (
    arith,
    status_rows-AreUnique rs h.2,
    is_some-find_key-status_rows r.idempotency_key rs,
    is_some-find_order-status_rows r.order_id rs,
  )

-- A refund leaves the orders of the payments.
pub refund_rows-HaveOrders :
    (sagas : List SagaRow) (id : String) (a : Float64) (now : Time) (ps : List Payment)
    → HaveOrders sagas ps
    → HaveOrders sagas (refund_rows id a now ps).1
unfolding refund_rows
refund_rows-HaveOrders sagas id a now [] h = tt
refund_rows-HaveOrders sagas id a now (p ∷ ps) h =
    ground (arith, refund_rows-HaveOrders sagas id a now ps h.1)
