-- ===== src/Reliability/Breaker/Interleaved.antt =====
-- reliability.go, `CircuitBreaker.Execute` in many goroutines: the mutex orders the two halves of
-- the calls, and any call in flight may be the next to return.
use mathlib.Core.Path.{subst}
use orders_go.Common.{
  sym, ap, ◌∙◌, ◌≡◌, ◌≢◌, refl, true, false, Option, none, some, List, [], ◌∷◌, ◌++◌, arith,
}
use orders_go.Common.Int.{pos, ltb_ℤ}
use orders_go.Go.Int64.{Time, time_sub}
use orders_go.Go.Errors.{GoError, sentinel, Sentinel}
use orders_go.Reliability.Breaker.{
  CircuitBreaker, circuit_open, circuit_closed, circuit_half_open, admit, settle,
}
use orders_go.Reliability.Breaker.Invariant.{
  IsValid, admit-IsValid, settle-IsValid, admit-half_open,
}

-- The breaker, and when each call that is now inside `fn` read the clock.
pub record System : Type 0 where
  pub breaker : CircuitBreaker
  pub in_flight : List Time

-- A call that is refused or goes on to `fn`.
pub data Enter (s : System) (t : System) : Type 0 where
  refused :
      (now : Time) (e : GoError)
      → (admit now s.breaker).1 ≡ some e
      → t ≡ record s { breaker = (admit now s.breaker).0 }
      → Enter s t
  started :
      (now : Time)
      → (admit now s.breaker).1 ≡ none
      → t ≡ record { breaker = (admit now s.breaker).0; in_flight = now ∷ s.in_flight }
      → Enter s t

pub data Step (s : System) (t : System) : Type 0 where
  enter : Enter s t → Step s t
  finish :
      (before after : List Time) (now : Time) (err : Option GoError)
      → s.in_flight ≡ before ++ (now ∷ after)
      → t ≡ record { breaker = settle now err s.breaker; in_flight = before ++ after }
      → Step s t

pub data Star (R : System → System → Type 0) (s : System) : System → Type 0 where
  here : Star R s s
  next : {t u : System} → Star R s t → R t u → Star R s u

Enter-IsValid : {s t : System} → Enter s t → IsValid s.breaker → IsValid t.breaker
Enter-IsValid {s} (refused now e r x) h =
    subst (λ u. IsValid u.breaker) (sym x) (admit-IsValid now s.breaker h)
Enter-IsValid {s} (started now r x) h =
    subst (λ u. IsValid u.breaker) (sym x) (admit-IsValid now s.breaker h)

-- From a state where the breaker's invariant holds, it holds in every state that any interleaving
-- of calls reaches.
pub Star-IsValid : {s t : System} → Star Step s t → IsValid s.breaker → IsValid t.breaker
Star-IsValid here h = h
Star-IsValid (next {t} {u} r (enter e)) h = Enter-IsValid e (Star-IsValid r h)
Star-IsValid (next {t} {u} r (finish before after now err x y)) h =
    subst (λ v. IsValid v.breaker) (sym y) (settle-IsValid now err t.breaker (Star-IsValid r h))

Enter-half_open :
    {s t : System} → Enter s t → IsValid s.breaker → s.breaker.state ≡ circuit_half_open → t ≡ s
Enter-half_open {s} {t} (refused now e r x) h p = ground (arith, admit-half_open now s.breaker h p)
Enter-half_open {s} {t} (started now r x) h p = ground (arith, admit-half_open now s.breaker h p)

half_open_still :
    {s t : System}
    → Star Enter s t
    → IsValid s.breaker
    → s.breaker.state ≡ circuit_half_open
    → t ≡ s
half_open_still here h p = refl
half_open_still {s} (next {t} {u} r e) h p =
    let same = half_open_still r h p in Enter-half_open e (rw same h) (rw same p) ∙ same

settle-leaves :
    (now : Time) (err : Option GoError) (b : CircuitBreaker)
    → (settle now err b).state ≢ circuit_half_open
unfolding settle
settle-leaves now none b = ground arith
settle-leaves now (some e) b = ground arith

admit-refused :
    (now : Time) (b : CircuitBreaker) (e : GoError) → (admit now b).1 ≡ some e → (admit now b).0 ≡ b
unfolding admit
admit-refused now b e r = ground (arith, r)

-- Where the breaker is half-open a call is in flight.
abbrev IsHeld : System → Type 0
IsHeld s = s.breaker.state ≡ circuit_half_open → s.in_flight ≢ []

Star-IsHeld : {s t : System} → Star Step s t → IsHeld s → IsHeld t
Star-IsHeld here held = held
Star-IsHeld (next {t} {u} r (enter (refused now e stop x))) held =
    let before = Star-IsHeld r held in
    let same = admit-refused now t.breaker e stop in rw (x, same) before
Star-IsHeld (next {t} {u} r (enter (started now go x))) held = λ _ empty. ground (arith, x, empty)
Star-IsHeld (next {t} {u} r (finish before after now err x y)) held = λ half.
    absurd (settle-leaves now err t.breaker (ap (λ (v : System). v.breaker.state) (sym y) ∙ half))

-- From a closed breaker whose invariant holds: whenever any interleaving of calls has brought it to
-- the half-open state, a call is in flight; however many calls try meanwhile, none gets to `fn` and
-- nothing changes; and whichever call in flight returns first, with whatever error, ends the state.
pub half_open_exclusive :
    {s t u : System}
    → IsValid s.breaker
    → s.breaker.state ≡ circuit_closed
    → Star Step s t
    → t.breaker.state ≡ circuit_half_open
    → Star Enter t u
    → (t.in_flight ≢ [])
      × (u ≡ t)
      × ((now : Time) (err : Option GoError) → (settle now err u.breaker).state ≢ circuit_half_open)
half_open_exclusive {u} h closed run half tries = (
  Star-IsHeld run (λ early. absurd (ground (arith, closed, early))) half,
  half_open_still tries (Star-IsValid run h) half,
  λ now err. settle-leaves now err u.breaker,
)

-- The breaker that a failure in the half-open state leaves, opened as of `start`.
abbrev pub opened_as_of : Time → CircuitBreaker → CircuitBreaker
opened_as_of start b = record b {
  state = circuit_open;
  failures = pos 0;
  opened_at = start;
  half_open_flight = false;
}

-- The breaker when a probe has been let through.
abbrev pub probing : CircuitBreaker → CircuitBreaker
probing b = record b { state = circuit_half_open; half_open_flight = true }

-- In the half-open state, a probe and a call that began at an older time `stale` are in flight. At the time `now`, which lies
-- `reset_after` behind `stale` but not behind the probe's start, a call is refused; it would be refused
-- as well had the probe failed, which opens the breaker as of the probe's start. But when the older
-- call fails, the breaker opens as of `stale` and forgets the probe, and the call at `now` goes to `fn`
-- as a second probe beside the first, which is still in flight.
pub two_probes :
    (s : System) (before after : List Time) (probe stale now : Time) (e : GoError)
    → s.in_flight ≡ probe ∷ before ++ (stale ∷ after)
    → s.breaker.state ≡ circuit_half_open
    → s.breaker.half_open_flight ≡ true
    → ltb_ℤ (time_sub now probe) s.breaker.reset_after ≡ true
    → ltb_ℤ (time_sub now stale) s.breaker.reset_after ≡ false
    → let refusal : Option GoError = some (sentinel Sentinel.circuit_open) in
      let failed = settle stale (some e) s.breaker in
      (admit now s.breaker ≡ (s.breaker, refusal))
      × (settle probe (some e) s.breaker ≡ opened_as_of probe s.breaker)
      × (admit now (settle probe (some e) s.breaker) ≡ (opened_as_of probe s.breaker, refusal))
      × (failed ≡ opened_as_of stale s.breaker)
      × (admit now failed ≡ (probing failed, none))
      × Star Step s (record { breaker = probing failed; in_flight = now ∷ probe ∷ before ++ after })
unfolding settle admit
two_probes s before after probe stale now e x half flight early late =
    let failed = settle stale (some e) s.breaker in
    let second : admit now failed ≡ (probing failed, none) = ground (arith, half, late) in
    (
      ground (arith, half, flight),
      ground (arith, half),
      ground (arith, half, early),
      ground (arith, half),
      second,
      next (next here (finish (probe ∷ before) after stale (some e) x refl)) (
          enter (
            started now (ap (λ r. r.1) second) (
              ap
                (λ (r : CircuitBreaker × Option GoError). record {
                  breaker = r.0;
                  in_flight = now ∷ probe ∷ before ++ after;
                })
                (sym second)))),
    )
