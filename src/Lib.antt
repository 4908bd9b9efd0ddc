-- ===== src/Lib.antt =====
-- A verification library for the TypeScript implementation of the billing core (typescript/src): credits,
-- their funding sources and debts, the order of subscription events, and the timing of plan changes.
--
-- The program. Services run one PostgreSQL transaction per call. `CreditService` (credits.ts) charges and
-- refunds usage against the subscription balance of an account and its credit packs; clawbacks.ts and
-- credit-pack-funding.ts collect debts of refunded funding; the projector of subscription events orders
-- them by ordering.ts and processor-primitives.ts; transitions.ts decides when a plan change takes effect.
-- `EventProcessor` (event-processor.ts) takes each Stripe event once and hands it to the services of packs
-- and subscriptions, and `EntitlementService` (entitlements.ts) answers what an owner may do.
--
-- Files.
--   Base        names of the libraries, Boolean tests, integers, lists with select, find and update.
--   Store       the tables as lists of rows (db-types.ts and the row interfaces of the services), and the
--               transaction: a state that is lost when an error is thrown. Store.Tables has order by, the
--               row count, and the lemmas on updates by key; Store.Frames what a transaction
--               preserves, branch by branch, and Store.Runs what it leads to and which errors it throws.
--   Amount      creditAtoms, creditDecimal (credit-amount.ts) over lists of code points.
--   Primitives  ceilRatio, annualSlotsAllowed, projectSubscriptionStatus (processor-primitives.ts).
--   Ordering    eventWins, rankFor, projectionOrder (ordering.ts, processor-primitives.ts).
--   Transition  decideTransition (transitions.ts).
--   Calendar    daysInMonth, daysFromCivil, timestampMicros, rfc3339Timestamp (subscription-state.ts) over
--               lists of code points.
--   Spendable   subscriptionCreditsAreSpendable, spendableSubscriptionAtoms (subscription-state.ts) on rows.
--   Catalog     the plans and their lookup keys (catalog.ts).
--   Value       dynamic JavaScript values; PricePolicy the checks of Stripe prices (price-policy.ts),
--               InvoicePolicy those of invoices (invoice-policy.ts),
--               Portal that of a Portal configuration (portal-policy.ts).
--   Annual      AnnualGrantService.grantDue (annual.ts) with its incidents.
--   Clawback    collectClawbackDebts (clawbacks.ts).
--   Funding     packBalanceAtoms and the collection of pack debts (credit-pack-funding.ts).
--   Charge      CreditService.charge (credits.ts) with the expiry of lots; Charge.Refusal describes its errors by rows.
--   Refund      CreditService.refund (credits.ts) with the release of pack debts.
--   PackEvents  CreditPackEventProcessor (credit-pack-events.ts): Payment makes the lot of an order, Clawback
--               takes its credits back (Contract its tests, Recovery the lot and the debt), Checkout the
--               session.
--   Entitlements  EntitlementService (entitlements.ts): the decision of check, and the credits of an owner.
--   Inbox       EventProcessor (event-processor.ts): each event is committed once, with what it does; Shape
--               what is read in it, History runs of deliveries. The projector of subscription events is an
--               interface in the source, and a parameter with one law: it leaves the inbox to the
--               processor. Projection fills it with the handlers of Subscriptions.
--   Runtime     the ProcessorRuntime of event-processor.ts: lockAccount, eventWinsAccount, recordIncident,
--               and the objects that are read in a subscription event.
--   Subscriptions  SubscriptionEventProjector (subscription-projector.ts): PaymentFailed, Deleted, Updated
--               (Items its plan and its period) and Checkout are its handlers; Ending, Binding, Packs and
--               Order say what they do, Frame and Quiet what they leave alone.
--   Kernel      BillingKernel (kernel.ts) with the pool of its Database (database.ts): start and stop as steps
--               between the points where the code waits. The owner of an injected database is taken to
--               leave its pool alone while the kernel is not idle.
--   Tests       runs over a small database, and the theorems at concrete inputs.
--
-- Conventions. Ids and keys are only compared and ordered, so they are naturals; instants are naturals.
-- Amounts are naturals: where the source subtracts, the model's subtraction stops at 0, and the source
-- tests the same case by `<= 0n`. The queries are read as SQL over lists of rows; the locks of `for
-- update` make a transaction one step, and unique violations of a primary key are errors. The check
-- constraints and triggers of the schema are not modelled: the hypotheses on unique ids state what the
-- primary keys guarantee. `randomUUID` and the sequence of allocation ids are part of the state. A refund
-- that reverses debts recurs along chains of debts; its fuel is the depth of the call stack, and running
-- out of it is an error that rolls back (Refund.Load is about that depth). The digits of a number are
-- printed on fuel that is the number itself and one. The columns updated_at and created_at of other tables
-- than the debts, and the details of incidents, are left out.
-- The readers of Stripe objects are not modelled: an event of a pack or of a subscription is the record of
-- what they return.
-- The unique Stripe ids of orders are not enforced.
-- Not modelled: the handlers of paid Invoices and of clawbacks of subscriptions (parameters of the
-- projector), plan changes, Checkout and the reservation of pack
-- orders, reconciliation, text validation of keys, the Stripe API, HTTP, configuration, the user interface
-- and the Python implementation.
pub mod Amount
pub mod Annual
pub mod Base
pub mod Calendar
pub mod Catalog
pub mod Value
pub mod PricePolicy
pub mod InvoicePolicy
pub mod Ordering
pub mod Primitives
pub mod Transition
pub mod Store
pub mod Runtime
pub mod Subscriptions
pub mod Clawback
pub mod Funding
pub mod Spendable
pub mod Charge
pub mod Refund
pub mod PackEvents
pub mod Entitlements
pub mod Inbox
pub mod Kernel
pub mod Portal
pub mod Tests
