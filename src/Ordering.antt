-- ===== src/Ordering.antt =====
-- typescript/src/ordering.ts, and `projectionOrder` of typescript/src/processor-primitives.ts: the
-- order in which subscription events take effect. A cursor is the pair of the event's creation time
-- and its rank; Stripe's times are non-negative integers.
pub mod Convergence
use stripe_entitlements_fast.Base.{
  ℕ, String, Bool, List, [], ◌∷◌, ◌&&◌, ◌||◌, ltb, ◌==◌, if◌then◌else◌, str_eq,
}

-- `ProjectionCursor`
pub record Cursor : Type 0 where
  pub created : ℕ
  pub rank : ℕ

-- `eventWins`: the event strictly follows the cursor.
unfoldable pub event_wins : Cursor → Cursor → Bool
event_wins current event =
    ltb current.created event.created
    || ((event.created == current.created) && ltb current.rank event.rank)

-- `rankFor`, with the table `EVENT_RANK`
unfoldable pub rank_for : String → ℕ
rank_for type =
    if str_eq type "invoice.payment_failed"
    then 10
    else if str_eq type "customer.subscription.updated"
    then 20
    else if str_eq type "invoice.paid"
    then 30
    else if str_eq type "customer.subscription.deleted"
    then 40
    else 0

-- The two fields of a Stripe event that `projectionOrder` reads. `created` is already read by
-- `stripeNonnegativeInteger(event.created) ?? 0n`.
pub record Event : Type 0 where
  pub created : ℕ
  pub type : String

abbrev pub event_cursor : Event → Cursor
event_cursor e = record { created = e.created; rank = rank_for e.type }

-- `projectionOrder`: the incoming cursor if it is later, the current one if not.
unfoldable pub projection_order : Cursor → Event → Cursor
unfolding event_wins
projection_order current event =
    let incoming = event_cursor event in
    if ltb current.created incoming.created
      || ((incoming.created == current.created) && ltb current.rank incoming.rank)
    then incoming
    else current

-- The cursor after a run of deliveries.
unfoldable pub deliver : Cursor → List Event → Cursor
deliver c [] = c
deliver c (e ∷ es) = deliver (projection_order c e) es
