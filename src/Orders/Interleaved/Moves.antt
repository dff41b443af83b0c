-- ===== src/Orders/Interleaved/Moves.antt =====
-- What each statement of a call does at its stage.
use mathlib.Core.Path.{subst}
use text.Mathlib.TextEquality.{eq_iff}
use text.Mathlib.TextPositions.{eq_refl}
use orders_go.Common.{
  ◌≡◌, refl, ap, sym, ◌∙◌, String, true, some, List, [], ◌∷◌, arith, Bool-cases, inl, inr, str_eq,
}
use orders_go.Orders.Saga.{status_succeeded}
use orders_go.Orders.Paid.{IsDone}
use orders_go.Orders.Interleaved.{Attempt}
use orders_go.Orders.Interleaved.Effects.{OnlyOf, Quiet, Quiet-SameRows}
use orders_go.Orders.Interleaved.Stages.{
  Stage, outside, opened, paid, assigned, finished, owns, concern, IsMine, Holds, AreSettled, Moves,
  IsDone-same, Holds-same,
}
use orders_go.Db.Sql.{SagaRow, Db}
use orders_go.Db.Sagas.{find_key, find_order}
use orders_go.Db.Integrity.{IsIntact, AreUnique}

-- A saga's row is found by its order as by its key.
pub find_order-find_key :
    (j : String) (rs : List SagaRow) (r : SagaRow)
    → AreUnique rs
    → find_order j rs ≡ some r
    → find_key r.idempotency_key rs ≡ some r
unfolding find_order find_key
find_order-find_key j [] r u h = ground (arith, h)
find_order-find_key j (s ∷ rs) r u h =
    ground
      (arith, h, u.0, find_order-find_key j rs r u.2, eq_iff s.idempotency_key r.idempotency_key)

pub find_key-find_order :
    (key : String) (rs : List SagaRow) (r : SagaRow)
    → AreUnique rs
    → find_key key rs ≡ some r
    → find_order r.order_id rs ≡ some r
unfolding find_order find_key
find_key-find_order key [] r u h = ground (arith, h)
find_key-find_order key (s ∷ rs) r u h =
    ground (arith, h, u.1, find_key-find_order key rs r u.2, eq_iff s.order_id r.order_id)

pub find_key-key :
    (key : String) (rs : List SagaRow) (r : SagaRow)
    → find_key key rs ≡ some r
    → r.idempotency_key ≡ key
unfolding find_key
find_key-key key [] r h = ground (arith, h)
find_key-key key (s ∷ rs) r h =
    ground (arith, h, find_key-key key rs r, eq_iff s.idempotency_key key)

-- A change of the rows of one order, whose saga is settled after it.
pub OnlyOf-AreSettled :
    (id : String) (db db' : Db)
    → OnlyOf id db db'
    → ((r : SagaRow)
        → find_order id db'.sagas ≡ some r
        → r.status ≡ status_succeeded
        → (d : String) × IsDone id d r.amount db')
    → AreSettled db
    → AreSettled db'
OnlyOf-AreSettled id db db' only own settled j r there won = elim (Bool-cases (str_eq j id)) [
  | inl same ↦
      let e : id ≡ j = ground (arith, same, eq_iff j id) in
      subst (λ i. (d : String) × IsDone i d r.amount db') e
        (own r (ap (λ i. find_order i db'.sagas) e ∙ there) won)
  | inr differs ↦
      let rows = only j (ground (arith, differs, eq_refl id)) in
      let (d, done_) = settled j r (sym rows.saga_same ∙ there) won in
      (d, IsDone-same j d r.amount db db' rows done_)
]

pub Holds-IsMine :
    (c : Attempt) (st : Stage) (db : Db) → owns st ≡ true → Holds c st db → IsMine c db
Holds-IsMine c outside db o h = absurd (ground (arith, o))
Holds-IsMine c opened db o h = h
Holds-IsMine c paid db o h = h.0
Holds-IsMine c assigned db o h = h.0
Holds-IsMine c (finished _ _ _) db o h = absurd (ground (arith, o))

pub concern-own : (c : Attempt) (st : Stage) → owns st ≡ true → concern c st ≡ some c.order_id
concern-own c outside o = absurd (ground (arith, o))
concern-own c opened o = refl
concern-own c paid o = refl
concern-own c assigned o = refl
concern-own c (finished _ _ _) o = absurd (ground (arith, o))

-- A statement on the call's own order, after which the saga is still pending.
pub owner-Moves :
    (c : Attempt) (st st' : Stage) (db db' : Db)
    → owns st ≡ true
    → owns st' ≡ true
    → IsIntact db'
    → OnlyOf c.order_id db db'
    → AreSettled db
    → Holds c st' db'
    → Moves c st db st' db'
owner-Moves c st st' db db' o o' intact only settled h =
    let mine = Holds-IsMine c st' db' o' h in
    record {
      intact = intact;
      settled =
          OnlyOf-AreSettled c.order_id db db' only
            (λ r there won. absurd (mine.pending (ground (arith, there, mine.there, won)))) settled;
      holds = h;
      apart = λ j other _. only j (other o);
      claims = λ j e. inl (ground (arith, e, concern-own c st' o'), o);
    }

-- One that leaves the tables but for the steps.
pub Quiet-Moves :
    (c : Attempt) (st : Stage) (db db' : Db)
    → owns st ≡ true
    → Quiet db db'
    → IsIntact db'
    → AreSettled db
    → Holds c st db
    → Moves c st db st db'
Quiet-Moves c st db db' o quiet intact settled h =
    owner-Moves c st st db db' o o intact (λ j _. Quiet-SameRows j db db' quiet) settled
      (Holds-same c st db db' (λ j _. Quiet-SameRows j db db' quiet) h)
