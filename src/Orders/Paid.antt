-- ===== src/Orders/Paid.antt =====
-- What an order that has gone through leaves in the database of internal/db/orders.
use orders_go.Common.{◌≡◌, ◌∙◌, ap, refl, String, none, some}
use orders_go.Go.Float64.{Float64}
use orders_go.Db.Sql.{Payment, Assignment, Db}
use orders_go.Db.Payments.{find_payment, charge}
use orders_go.Db.Payments.Laws.{inserted, charge_under_faults}
use orders_go.Db.Sagas.Kept.{IsKept}
use orders_go.Db.Drivers.{find_assignment, assign}
use orders_go.Db.Drivers.Faults.{assign_under_faults}

-- A payment of this amount that was not given back.
pub record IsPaid (id : String) (amount : Float64) (db : Db) : Type 0 where
  pub payment : Payment
  pub charged : find_payment id db.payments ≡ some payment
  pub charged_amount : payment.amount ≡ amount
  pub not_refunded : payment.refunded_at ≡ none

-- The same, and this driver.
pub record IsDone (id driver : String) (amount : Float64) (db : Db) : Type 0 where
  pub payment : Payment
  pub charged : find_payment id db.payments ≡ some payment
  pub charged_amount : payment.amount ≡ amount
  pub not_refunded : payment.refunded_at ≡ none
  pub assignment : Assignment
  pub assigned : find_assignment id db.assignments ≡ some assignment
  pub assigned_driver : assignment.driver_id ≡ driver

-- This driver.
pub record IsAssigned (id driver : String) (db : Db) : Type 0 where
  pub assignment : Assignment
  pub assigned : find_assignment id db.assignments ≡ some assignment
  pub assigned_driver : assignment.driver_id ≡ driver

module _ (id driver : String) (amount : Float64) where
  pub IsPaid-kept : (db db' : Db) → IsKept db db' → IsPaid id amount db → IsPaid id amount db'
  IsPaid-kept db db' same h = record {
    payment = h.payment;
    charged = ap (find_payment id) same.0 ∙ h.charged;
    charged_amount = h.charged_amount;
    not_refunded = h.not_refunded;
  }

  pub IsDone-kept :
      (db db' : Db) → IsKept db db' → IsDone id driver amount db → IsDone id driver amount db'
  IsDone-kept db db' same h = record {
    payment = h.payment;
    charged = ap (find_payment id) same.0 ∙ h.charged;
    charged_amount = h.charged_amount;
    not_refunded = h.not_refunded;
    assignment = h.assignment;
    assigned = ap (find_assignment id) same.1 ∙ h.assigned;
    assigned_driver = h.assigned_driver;
  }

  pub IsPaid-IsAssigned :
      (db : Db) → IsPaid id amount db → IsAssigned id driver db → IsDone id driver amount db
  IsPaid-IsAssigned db h k = record {
    payment = h.payment;
    charged = h.charged;
    charged_amount = h.charged_amount;
    not_refunded = h.not_refunded;
    assignment = k.assignment;
    assigned = k.assigned;
    assigned_driver = k.assigned_driver;
  }

  pub charge-IsPaid :
      (db : Db) → (charge id amount db).0 ≡ none → IsPaid id amount (charge id amount db).1
  charge-IsPaid db ok = record {
    payment = inserted id amount db;
    charged = ((charge_under_faults id amount db).2 ok).1;
    charged_amount = refl;
    not_refunded = refl;
  }

  pub assign-IsPaid : (db : Db) → IsPaid id amount db → IsPaid id amount (assign id driver db).1
  assign-IsPaid db h = record {
    payment = h.payment;
    charged = ap (find_payment id) (assign_under_faults id driver db).0 ∙ h.charged;
    charged_amount = h.charged_amount;
    not_refunded = h.not_refunded;
  }

  pub assign-IsAssigned :
      (db : Db) → (assign id driver db).0 ≡ none → IsAssigned id driver (assign id driver db).1
  assign-IsAssigned db ok =
      let (a, there, same) = (assign_under_faults id driver db).1 ok in
      record { assignment = a; assigned = there; assigned_driver = same }
