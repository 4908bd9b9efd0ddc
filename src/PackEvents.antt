-- ===== src/PackEvents.antt =====
-- `CreditPackEventProcessor` of typescript/src/credit-pack-events.ts: what the events of Stripe about a
-- credit pack do to its order, its lot and its debt. A Stripe object is the record of what the
-- readers of processor-primitives.ts find in it: `none` where `stripeId` or
-- `stripeNonnegativeInteger` return undefined. A Stripe id is a natural, as in the tables.
pub mod Payment
pub mod Checkout
pub mod Contract
pub mod Recovery
pub mod Clawback
use stripe_entitlements_fast.Base.{
  ℕ, suc, [], ◌∷◌, ◌++◌, String, Bool, true, false, not, Option, none, some, ◌&&◌, ◌==◌, str_eq,
  if◌then◌else◌, find, exists, update,
}
pub use stripe_entitlements_fast.Store.{Outcome, handled, ignored, replayed}
use stripe_entitlements_fast.Store.{
  Db, Account, Order, PackIncidentKind, payment_metadata_invalid, payment_identity_conflict,
  payment_contract_mismatch, checkout_contract_mismatch, clawback_contract_mismatch,
  invalid_event_shape, webhook_contract_mismatch, DedupeKey, by_payment, by_session, by_charge,
  by_event, PackIncident,
}

-- A UUID in a text: its value, and whether the text is the lower-case form that the tables print.
pub record IdText : Type 0 where
  pub id : ℕ
  pub is_canonical : Bool

-- The metadata of an object, `none` where the entry is no text. A number is the one of which the entry
-- is the exact decimal text, `none` for any other text; an id is `none` for a text that is no UUID.
pub record PackMetadata : Type 0 where
  pub billing_kind : Option String
  pub schema_version : Option String
  pub product_line : Option String
  pub order_id : Option IdText
  pub account_id : Option IdText
  pub pack_key : Option String
  pub pack_credits : Option ℕ
  pub price_amount : Option ℕ
  pub currency : Option String
  pub expires_days : Option ℕ
  pub lookup_key : Option String

-- A PaymentIntent: whether `object` and `status` are the expected texts, and what else is read.
pub record PaymentIntent : Type 0 where
  pub id : Option ℕ
  pub is_payment_intent : Bool
  pub is_succeeded : Bool
  pub customer : Option ℕ
  pub latest_charge : Option ℕ
  pub amount : Option ℕ
  pub amount_received : Option ℕ
  pub currency : Option String
  pub metadata : PackMetadata

-- the reasons of the results, one for each text of the source
pub data PackReason : Type 0 where
  payment_not_authorized order_conflicting payment_mismatch no_creation_time lot_exists
        funding_granted :
      PackReason
  order_missing session_conflicting contract_conflicting checkout_expired identity_conflicting
        checkout_recorded :
      PackReason
  clawback_order_missing clawback_mismatch cash_facts_advanced facts_not_advanced : PackReason
  clawback_removed : ℕ → PackReason

-- `ProcessResult`
pub record ProcessResult : Type 0 where
  pub outcome : Outcome
  pub reason : PackReason
  pub account_id : Option ℕ

abbrev pub ignore : PackReason → ProcessResult
ignore reason = record { outcome = ignored; reason = reason; account_id = none }

abbrev pub equals_text : String → Option String → Bool
equals_text s none = false
equals_text s (some t) = str_eq t s

abbrev pub equals : ℕ → Option ℕ → Bool
equals n none = false
equals n (some m) = m == n

abbrev pub equals_id : ℕ → Option IdText → Bool
equals_id n none = false
equals_id n (some t) = t.is_canonical && t.id == n

abbrev pub is_some {ℓ} : {A : Type ℓ} → Option A → Bool
is_some none = false
is_some (some _) = true

-- `observed === expected` of two ids that may be undefined
abbrev pub same_id : Option ℕ → Option ℕ → Bool
same_id none none = true
same_id (some m) (some n) = m == n
same_id _ _ = false

-- `nullableMatches` on a stored id, with an expected id that may be undefined
abbrev pub nullable_matches : Option ℕ → Option ℕ → Bool
nullable_matches none expected = true
nullable_matches (some m) none = false
nullable_matches (some m) (some n) = m == n

-- `coalesce(stored, given)`
abbrev pub coalesce : Option ℕ → Option ℕ → Option ℕ
coalesce none given = given
coalesce (some m) given = some m

-- the metadata of a pack of this product line
abbrev pub is_pack_metadata : String → PackMetadata → Bool
is_pack_metadata line m =
    equals_text "credit_pack" m.billing_kind
    && equals_text "1" m.schema_version
    && equals_text line m.product_line

-- the order, the account and the pack that an object names
pub record Identity : Type 0 where
  pub order : ℕ
  pub account : ℕ
  pub pack_key : String

abbrev pub identity_of : Option IdText → Option IdText → Option String → Option Identity
identity_of (some o) (some a) (some k) =
    some (record { order = o.id; account = a.id; pack_key = k })
identity_of _ _ _ = none

-- `#orderMetadata`
unfoldable pub order_metadata : String → PackMetadata → Option Identity
order_metadata line m =
    if is_pack_metadata line m then identity_of m.order_id m.account_id m.pack_key else none

-- `#metadataMatchesOrder`
unfoldable pub metadata_matches_order : String → PackMetadata → Order → Bool
metadata_matches_order line m o =
    is_pack_metadata line m
    && equals_id o.id m.order_id
    && equals_id o.account_id m.account_id
    && equals_text o.pack_key m.pack_key
    && equals o.pack_credits m.pack_credits
    && equals o.price_amount m.price_amount
    && equals_text o.currency m.currency
    && equals o.expires_days m.expires_days
    && equals_text o.lookup_key m.lookup_key

abbrev pub has_order_id : ℕ → Order → Bool
has_order_id k o = o.id == k

abbrev pub has_account_id : ℕ → Account → Bool
has_account_id k a = a.id == k

abbrev pub owned_by : Account → Order → Option (Account × Order)
owned_by a o = if o.account_id == a.id then some (a, o) else none

-- `#lockedOrder`: the two rows, where the order is one of the account
unfoldable pub locked_order : ℕ → ℕ → Db → Option (Account × Order)
locked_order order account db = elim (find (has_order_id order) db.orders) [
  | none ↦ none
  | some o ↦
      if not (o.account_id == account)
      then none
      else elim (find (has_account_id account) db.accounts) [ none ↦ none | some a ↦ owned_by a o ]
]

abbrev pub same_kind : PackIncidentKind → PackIncidentKind → Bool
same_kind payment_metadata_invalid payment_metadata_invalid = true
same_kind payment_identity_conflict payment_identity_conflict = true
same_kind payment_contract_mismatch payment_contract_mismatch = true
same_kind checkout_contract_mismatch checkout_contract_mismatch = true
same_kind clawback_contract_mismatch clawback_contract_mismatch = true
same_kind invalid_event_shape invalid_event_shape = true
same_kind webhook_contract_mismatch webhook_contract_mismatch = true
same_kind _ _ = false

abbrev pub same_key : DedupeKey → DedupeKey → Bool
same_key (by_payment m) (by_payment n) = m == n
same_key (by_session m) (by_session n) = m == n
same_key (by_charge m) (by_charge n) = m == n
same_key (by_event m) (by_event n) = same_id m n
same_key _ _ = false

abbrev pub is_same_open : PackIncidentKind → DedupeKey → PackIncident → Bool
is_same_open kind key i = same_kind i.kind kind && same_key i.dedupe_key key && not i.resolved

-- `#incident`: an open incident of the key is seen again, or a new one is opened.
unfoldable pub record_incident : PackIncidentKind → Option ℕ → DedupeKey → Option ℕ → Db → Db
record_incident kind event key account db = record db {
  pack_incidents =
      if exists (is_same_open kind key) db.pack_incidents
      then update (is_same_open kind key)
          (λ i. record i {
            event_id = event;
            account_id = coalesce account i.account_id;
            seen_count = suc i.seen_count;
          })
          db.pack_incidents
      else db.pack_incidents
        ++ record {
          kind = kind;
          dedupe_key = key;
          event_id = event;
          account_id = account;
          seen_count = 1;
          resolved = false;
        }
          ∷ [];
}

abbrev pub set_customer : ℕ → ℕ → Db → Db
set_customer account customer db = record db {
  accounts =
      update (has_account_id account) (λ a. record a { customer_id = some customer }) db.accounts;
}

abbrev pub adopt_if : Option ℕ → ℕ → ℕ → Db → Db
adopt_if none account customer db = set_customer account customer db
adopt_if (some _) account customer db = db

-- the account keeps the first customer that it is given
unfoldable pub adopt_customer : Account → ℕ → Db → Db
adopt_customer a customer db = adopt_if a.customer_id a.id customer db

abbrev pub change_order : ℕ → (Order → Order) → Db → Db
change_order order f db = record db { orders = update (has_order_id order) f db.orders }
