-- ===== src/InvoicePolicy/Lines.antt =====
-- The lines of an invoice are checked one by one (typescript/src/invoice-policy.ts).
use stripe_entitlements_fast.Base.{◌≡◌, refl, Bool, true, false, ◌||◌}
use stripe_entitlements_fast.Value.{Value, Items, end_items, item, array}
use stripe_entitlements_fast.InvoicePolicy.{
  is_adjusted_line, has_adjusted_line, is_adjusted_invoice, has_unsupported_invoice_adjustments,
}

abbrev pub join : Items → Items → Items
join end_items ys = ys
join (item x xs) ys = item x (join xs ys)

or_assoc : (a b c : Bool) → (a || (b || c)) ≡ ((a || b) || c)
or_assoc true b c = refl
or_assoc false b c = refl

or_shared : (a b c : Bool) → (a || (b || c)) ≡ ((a || b) || (a || c))
or_shared true b c = refl
or_shared false b c = refl

has_adjusted_line-join :
    (xs ys : Items)
    → has_adjusted_line (join xs ys) ≡ (has_adjusted_line xs || has_adjusted_line ys)
has_adjusted_line-join end_items ys = refl
has_adjusted_line-join (item x xs) ys =
    rw (has_adjusted_line-join xs ys)
      (or_assoc (is_adjusted_line x) (has_adjusted_line xs) (has_adjusted_line ys))

-- An invoice with the lines of two lists is refused for an adjustment exactly where it is refused with
-- the one list or with the other.
pub has_unsupported_invoice_adjustments-join :
    (invoice : Value) (xs ys : Items)
    → has_unsupported_invoice_adjustments invoice (array (join xs ys)) ≡ (
        has_unsupported_invoice_adjustments invoice (array xs)
        || has_unsupported_invoice_adjustments invoice (array ys))
unfolding has_unsupported_invoice_adjustments
has_unsupported_invoice_adjustments-join invoice xs ys =
    rw (has_adjusted_line-join xs ys)
      (or_shared (is_adjusted_invoice invoice) (has_adjusted_line xs) (has_adjusted_line ys))
