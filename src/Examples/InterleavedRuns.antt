-- ===== src/Examples/InterleavedRuns.antt =====
-- Two calls with the key "k1", for the orders "o1" and "o2", side by side.
use orders_go.Common.{
  ℕ, ◌≤◌, ◌≡◌, refl, arith, true, String, none, List, [], ◌∷◌, if◌then◌else◌, ◌==◌,
}
use orders_go.Common.Int.{pos}
use orders_go.Go.Float64.{Float64, float_90, float_eq, is_nan, rank}
use orders_go.Go.Errors.{message}
use orders_go.Orders.Service.{Reply, replayed}
use orders_go.Orders.Paid.{IsDone}
use orders_go.Orders.Interleaved.{
  Attempt, done, order_steps, start_steps, read_back_steps, proceed_steps, charge_payment_steps,
  charge_steps, assign_driver_steps, assign_steps, check_existing_steps, add_step_steps,
  update_status_steps,
}
use orders_go.Orders.Interleaved.Stages.{AreSettled, IsKnown}
use orders_go.Orders.Interleaved.System.{System, put, Reach, here, opening}
use orders_go.Orders.Interleaved.System.Schedule.{turn, turns, turns-Reach}
use orders_go.Orders.Interleaved.System.Answers.{occurrences, turns-answered}
use orders_go.Orders.Interleaved.Results.{
  count_charges, concurrent_invariant, replied-IsDone, replied-same_order,
}
use orders_go.Db.Sql.{Db, exec, query_row}
use orders_go.Db.Sagas.{
  insert_saga, select_saga, insert_step, update_saga, find_key, find_order, status_rows,
}
use orders_go.Db.Payments.{insert_payment, find_payment}
use orders_go.Db.Drivers.{insert_assignment, find_assignment}
use orders_go.Db.Integrity.{IsIntact}

-- The second statement's answer is lost, the rest is fine.
abbrev empty_db : Db
empty_db = record {
  payments = [];
  sagas = [];
  steps = [];
  assignments = [];
  now = pos 1000;
  constraint_error = message "constraint";
  fates = [];
}

abbrev attempts : ℕ → Attempt
attempts i = record {
  user_id = "u1";
  amount = float_90;
  key = "k1";
  order_id = if i == 0 then "o1" else "o2";
  driver_id = "d1";
}

-- The second call inserts no saga while the first one is at work, and reads when it is done.
abbrev schedule : List ℕ
schedule = 0 ∷ 1 ∷ 0 ∷ 0 ∷ 0 ∷ 0 ∷ 0 ∷ 0 ∷ 0 ∷ 0 ∷ 1 ∷ []

abbrev last : System
last = turns schedule (opening attempts empty_db)

empty_db-IsIntact : IsIntact empty_db
empty_db-IsIntact = record {
  payments_keyed = tt;
  payments_refer = tt;
  sagas_unique = tt;
  steps_refer = tt;
  assignments_refer = tt;
}

empty_db-AreSettled : AreSettled empty_db
unfolding find_order
empty_db-AreSettled j r there won = ground (arith, there)

last-Reach : Reach (opening attempts empty_db) last
last-Reach = turns-Reach (opening attempts empty_db) (opening attempts empty_db) schedule here

first_done : last.calls 0 ≡ done ("o1", none)
unfolding turns turn put order_steps start_steps read_back_steps proceed_steps charge_payment_steps
    charge_steps assign_driver_steps assign_steps check_existing_steps add_step_steps
    update_status_steps exec query_row insert_saga select_saga insert_step insert_payment
    insert_assignment update_saga find_key find_order find_payment find_assignment status_rows
    float_eq is_nan rank
first_done = refl

second_done : last.calls 1 ≡ done ("o1", none)
unfolding turns turn put order_steps start_steps read_back_steps proceed_steps charge_payment_steps
    charge_steps assign_driver_steps assign_steps check_existing_steps add_step_steps
    update_status_steps exec query_row insert_saga select_saga insert_step insert_payment
    insert_assignment update_saga find_key find_order find_payment find_assignment status_rows
    float_eq is_nan rank replayed
second_done = refl

concurrent_invariant_example :
    IsIntact last.db × AreSettled last.db × (count_charges "k1" last.db.sagas last.db.payments ≤ 1)
concurrent_invariant_example =
    concurrent_invariant attempts empty_db last empty_db-IsIntact empty_db-AreSettled last-Reach
      "k1"

replied-IsDone_example :
    (d : String) × (a : Float64) × (float_eq a float_90 ≡ true)
    × IsKnown (attempts 1) "o1" last.db
    × IsDone "o1" d a last.db
replied-IsDone_example =
    replied-IsDone attempts empty_db last empty_db-IsIntact empty_db-AreSettled last-Reach 1 "o1"
      second_done

replied-same_order_example : ◌≡◌ {A = String} "o1" "o1"
replied-same_order_example =
    replied-same_order attempts empty_db last empty_db-IsIntact empty_db-AreSettled last-Reach 0 1
      "o1" "o1" refl first_done second_done

-- Whatever the second call does in between.
turns-answered_example :
    (r : Reply) × ((turns
          (0 ∷ 1 ∷ 0 ∷ 0 ∷ 1 ∷ 0 ∷ 0 ∷ 0 ∷ 0 ∷ 0 ∷ 0 ∷ 1 ∷ 0 ∷ 0 ∷ 0 ∷ 0 ∷ 0 ∷ [])
          (opening attempts empty_db)).calls
        0
      ≡ done r)
unfolding occurrences
turns-answered_example =
    turns-answered attempts empty_db 0
      (0 ∷ 1 ∷ 0 ∷ 0 ∷ 1 ∷ 0 ∷ 0 ∷ 0 ∷ 0 ∷ 0 ∷ 0 ∷ 1 ∷ 0 ∷ 0 ∷ 0 ∷ 0 ∷ 0 ∷ []) (omega arith)
