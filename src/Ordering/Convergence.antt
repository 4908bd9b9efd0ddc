-- ===== src/Ordering/Convergence.antt =====
-- The projected cursor does not depend on the order or the repetition of deliveries
-- (`projectionOrder` of typescript/src/processor-primitives.ts).
use mathlib.Core.Bool.{Bool-set}
use mathlib.Core.List.{Mem, not-mem-nil, forall_mem-cons}
use stripe_entitlements_fast.Base.{◌≡◌, true, false, List, [], ◌∷◌, ◌↔◌, All, arith}
use stripe_entitlements_fast.Ordering.{
  Cursor, Event, event_cursor, event_wins, projection_order, deliver,
}

-- An event moves the cursor exactly when it wins, and then to its own position.
pub projection_order-event_wins :
    (c : Cursor) (e : Event)
    → ((event_wins c (event_cursor e) ≡ true) → projection_order c e ≡ event_cursor e)
      × ((event_wins c (event_cursor e) ≡ false) → projection_order c e ≡ c)
unfolding projection_order
projection_order-event_wins c e = ground arith

-- A position is not overtaken by the projected one exactly when neither source overtakes it.
not_overtaken :
    (d c : Cursor) (e : Event)
    → (event_wins d (projection_order c e) ≡ false)
      ↔ ((event_wins d c ≡ false) × (event_wins d (event_cursor e) ≡ false))
unfolding projection_order
not_overtaken d c e = (λ h. ground arith, λ h. ground arith)

-- Two positions that do not overtake one another are the same.
wins_antisym : (c d : Cursor) → event_wins c d ≡ false → event_wins d c ≡ false → c ≡ d
unfolding event_wins
wins_antisym c d h k = ground arith

wins_irrefl : (c : Cursor) → event_wins c c ≡ false
unfolding event_wins
wins_irrefl c = ground arith

abbrev Below : Cursor → List Event → Type 0
Below d es = All (λ e. event_wins d (event_cursor e) ≡ false) es

-- The delivered cursor is the least position above the start and every event.
deliver-least :
    (d c : Cursor) (es : List Event)
    → (event_wins d (deliver c es) ≡ false) ↔ ((event_wins d c ≡ false) × Below d es)
unfolding deliver
deliver-least d c [] = (λ h. (h, tt), λ h. h.0)
deliver-least d c (e ∷ es) =
    let step = not_overtaken d c e in
    let rest = deliver-least d (projection_order c e) es in
    (
      λ h. ((step.0 (rest.0 h).0).0, ((step.0 (rest.0 h).0).1, (rest.0 h).1)),
      λ h. rest.1 (step.1 (h.0, h.1.0), h.1.1),
    )

Below-iff :
    (d : Cursor) (es : List Event)
    → Below d es ↔ ((e : Event) → Mem e es → event_wins d (event_cursor e) ≡ false)
Below-iff d [] = (λ _ e m. absurd (not-mem-nil m), λ _. tt)
Below-iff d (e ∷ es) =
    let both =
      forall_mem-cons (λ e. Bool-set (event_wins d (event_cursor e)) false) {a = e} {l = es} in
    let rest = Below-iff d es in
    (λ h. both.1 (h.0, rest.0 h.1), λ h. ((both.0 h).0, rest.1 (both.0 h).1))

-- Two runs of deliveries that hold the same events, in whatever order and however often, leave
-- the same cursor.
pub deliver_same_events :
    (c : Cursor) (xs ys : List Event)
    → ((e : Event) → Mem e xs ↔ Mem e ys)
    → deliver c xs ≡ deliver c ys
deliver_same_events c xs ys same =
    wins_antisym (deliver c xs) (deliver c ys) (below xs ys (λ e. (same e).1))
      (below ys xs (λ e. (same e).0))
  where
    below :
        (us vs : List Event)
        → ((e : Event) → Mem e vs → Mem e us)
        → event_wins (deliver c us) (deliver c vs) ≡ false
    below us vs sub =
        let top = (deliver-least (deliver c us) c us).0 (wins_irrefl (deliver c us)) in
        (deliver-least (deliver c us) c vs).1
          (top.0, (Below-iff _ vs).1 (λ e m. (Below-iff _ us).0 top.1 e (sub e m)))
