-- ===== src/InvoicePolicy.antt =====
-- typescript/src/invoice-policy.ts: the invoices that the implementation does not fulfil, because of
-- an adjustment or of the shape of their payment.
pub mod Lines
use stripe_entitlements_fast.Base.{
  pos, String, List, [], ◌∷◌, Bool, true, false, ◌&&◌, ◌||◌, not, exists, if◌then◌else◌,
}
use stripe_entitlements_fast.Value.{
  Value, Items, end_items, item, array, undefined, is_record, is_absent, is_false, is_text,
  is_integer, get,
}

-- `isExplicitZero`
abbrev pub is_explicit_zero : Value → Bool
is_explicit_zero v = is_integer (pos 0) v

abbrev pub absent_or_zero : Value → Bool
absent_or_zero v = is_absent v || is_explicit_zero v

abbrev pub is_empty_array : Value → Bool
is_empty_array (array end_items) = true
is_empty_array _ = false

abbrev pub absent_or_empty : Value → Bool
absent_or_empty v = is_absent v || is_empty_array v

abbrev pub amount_fields : List String
amount_fields =
    "starting_balance" ∷ "ending_balance" ∷ "pre_payment_credit_notes_amount"
    ∷ "post_payment_credit_notes_amount" ∷ "amount_overpaid" ∷ []

abbrev pub list_fields : List String
list_fields =
    "discounts" ∷ "default_tax_rates" ∷ "total_tax_amounts" ∷ "total_taxes"
    ∷ "total_discount_amounts" ∷ []

abbrev pub line_fields : List String
line_fields =
    "discounts" ∷ "tax_amounts" ∷ "taxes" ∷ "discount_amounts" ∷ "pretax_credit_amounts"
    ∷ "tax_rates" ∷ []

-- an invoice whose automatic tax is not switched off
abbrev pub is_taxed : Value → Bool
is_taxed tax = not (is_absent tax) && (not (is_record tax) || not (is_false (get tax "enabled")))

abbrev pub is_adjusted_line : Value → Bool
is_adjusted_line line =
    not (is_record line) || exists (λ f. not (absent_or_empty (get line f))) line_fields

-- the loop over the lines
abbrev pub has_adjusted_line : Items → Bool
has_adjusted_line end_items = false
has_adjusted_line (item line lines) = is_adjusted_line line || has_adjusted_line lines

-- the checks on the invoice itself
abbrev pub is_adjusted_invoice : Value → Bool
is_adjusted_invoice invoice =
    not (is_record invoice)
    || exists (λ f. not (absent_or_zero (get invoice f))) amount_fields
    || is_taxed (get invoice "automatic_tax")
    || not (is_absent (get invoice "discount"))
    || exists (λ f. not (absent_or_empty (get invoice f))) list_fields

-- `hasUnsupportedInvoiceAdjustments`
unfoldable pub has_unsupported_invoice_adjustments : Value → Value → Bool
has_unsupported_invoice_adjustments invoice (array lines) =
    is_adjusted_invoice invoice || has_adjusted_line lines
has_unsupported_invoice_adjustments invoice _ = true

-- the one payment of the invoice
abbrev pub is_unsupported_payment : Value → Bool
is_unsupported_payment payment =
    let details = get payment "payment" in
    let type = get details "type" in
    not (is_record payment)
    || (not (is_absent (get payment "status")) && not (is_text "paid" (get payment "status")))
    || (not (is_absent details)
        && (not (is_record details)
            || (not (is_absent type)
                && not (is_text "charge" type)
                && not (is_text "payment_intent" type))))

-- the data of the payments; an entry that is `undefined` ends the check
abbrev pub has_unsupported_data : Value → Bool
has_unsupported_data (array end_items) = false
has_unsupported_data (array (item undefined end_items)) = false
has_unsupported_data (array (item payment end_items)) = is_unsupported_payment payment
has_unsupported_data payments = not (is_absent payments)

-- `hasUnsupportedInvoicePaymentShape`
unfoldable pub has_unsupported_invoice_payment_shape : Value → Bool
has_unsupported_invoice_payment_shape invoice =
    let out_of_band = get invoice "paid_out_of_band" in
    let payments = get invoice "payments" in
    let has_more = get payments "has_more" in
    not (is_record invoice)
    || (not (is_absent out_of_band) && not (is_false out_of_band))
    || not (absent_or_zero (get invoice "amount_overpaid"))
    || (not (is_absent payments)
        && (not (is_record payments)
            || (not (is_absent has_more) && not (is_false has_more))
            || has_unsupported_data (get payments "data")))
