-- ===== src/Tests/Invoices.antt =====
-- An invoice of two lines, the second with a tax.
use stripe_entitlements_fast.Base.{◌≡◌, refl, true, false, ◌||◌, pos}
use stripe_entitlements_fast.Value.{
  Value, Items, end_items, item, array, object, field, end_fields, integer,
}
use stripe_entitlements_fast.InvoicePolicy.{has_unsupported_invoice_adjustments}
use stripe_entitlements_fast.InvoicePolicy.Lines.{join, has_unsupported_invoice_adjustments-join}

abbrev invoice : Value
invoice = object (field "starting_balance" (integer (pos 0)) end_fields)

abbrev plain_line : Items
plain_line = item (object (field "taxes" (array end_items) end_fields)) end_items

abbrev taxed_line : Items
taxed_line =
    item (object (field "taxes" (array (item (integer (pos 7)) end_items)) end_fields)) end_items

plain_accepted : has_unsupported_invoice_adjustments invoice (array plain_line) ≡ false
unfolding has_unsupported_invoice_adjustments
plain_accepted = refl

taxed_refused : has_unsupported_invoice_adjustments invoice (array taxed_line) ≡ true
unfolding has_unsupported_invoice_adjustments
taxed_refused = refl

has_unsupported_invoice_adjustments_run :
    has_unsupported_invoice_adjustments invoice (array (join plain_line taxed_line)) ≡ (
      has_unsupported_invoice_adjustments invoice (array plain_line)
      || has_unsupported_invoice_adjustments invoice (array taxed_line))
has_unsupported_invoice_adjustments_run =
    has_unsupported_invoice_adjustments-join invoice plain_line taxed_line
