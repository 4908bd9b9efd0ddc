-- ===== src/Inbox/Rejected.antt =====
-- What `EventProcessor.process` (typescript/src/event-processor.ts) does with an event that fails the
-- checks after its claim.
use stripe_entitlements_fast.Base.{
  ℕ, Bool, Option, ◌≤◌, ◌≢◌, sym, leb→le, ==_iff, List, ap, ◌≡◌, refl, ◌∙◌, none, some, inl, inr,
  true, false, ◌⊎◌, arith, Option-cases,
}
use stripe_entitlements_fast.Store.{
  Db, ignored, InboxEvent, invalid_event_shape, webhook_contract_mismatch, ok, PackIncidentKind,
  by_event,
}
use stripe_entitlements_fast.PackEvents.{record_incident}
use stripe_entitlements_fast.Inbox.Shape.{
  EventType, WebhookEvent, is_supported, is_instant, is_boolean, supported_shape_error,
  shape_error_of, event_shape_error,
}
use stripe_entitlements_fast.Amount.{max_credit_atoms}
use stripe_entitlements_fast.Inbox.{
  EventReason, shape, ignore_event, Processor, has_committed_event, claim_current, same_mode,
  equals_token, contract_mismatch, claim_event, close_event, reject_event, checked_event, process,
}
use stripe_entitlements_fast.Inbox.Steps.{claimed-process_event, process-process_event}

-- The event is recorded with an incident and a closed row of the inbox, and no other table is touched.
pub record Rejects (p : Processor) (e : WebhookEvent) (id : ℕ) (db : Db) : Type 0 where
  pub kind : PackIncidentKind
  pub reason : EventReason
  pub closed : List InboxEvent
  pub is_closed : closed ≡ (close_event id ignored (claim_event id e.livemode db)).inbox
  pub result :
      process p e db
      ≡ ok (
        ignore_event reason,
        record (record_incident kind (some id) (by_event (some id)) none db) { inbox = closed },
      )

-- What a supported event has.
pub record Shaped (e : WebhookEvent) : Type 0 where
  pub created : ℕ
  pub is_created : e.created ≡ some created
  pub in_range : created ≤ max_credit_atoms
  pub livemode : Bool
  pub is_livemode : e.livemode ≡ some livemode
  pub data_here : e.has_data ≡ true
  pub object_here : e.has_object ≡ true
  pub object_id_here : e.has_object_id ≡ true

-- An event that the service has not read from Stripe itself, and that comes from another mode or, where a
-- version is expected, from another version.
pub record Foreign (p : Processor) (e : WebhookEvent) : Type 0 where
  pub unverified : e.remote_verified ≡ false
  pub differs :
      (e.livemode ≢ some p.expected_livemode)
      ⊎ ((v : ℕ) × (p.expected_api_version ≡ some v) × (e.api_version ≢ some v))

is_instant-some :
    (o : Option ℕ) → is_instant o ≡ true → (n : ℕ) × (o ≡ some n) × (n ≤ max_credit_atoms)
is_instant-some none h = absurd (ground (arith, h))
is_instant-some (some n) h = (n, refl, leb→le n _ h)

is_boolean-some : (o : Option Bool) → is_boolean o ≡ true → (b : Bool) × (o ≡ some b)
is_boolean-some none h = absurd (ground (arith, h))
is_boolean-some (some b) h = (b, refl)

same_mode-some : (o : Option Bool) (b : Bool) → same_mode o b ≡ true → o ≡ some b
same_mode-some none b h = absurd (ground (arith, h))
same_mode-some (some true) b h = ap some (sym h)
same_mode-some (some false) true h = absurd (ground (arith, h))
same_mode-some (some false) false h = refl

equals_token-some : (n : ℕ) (o : Option ℕ) → equals_token n o ≡ true → o ≡ some n
equals_token-some n none h = absurd (ground (arith, h))
equals_token-some n (some m) h = ap some ((==_iff m n).0 h)

supported_shape_error-Shaped : (e : WebhookEvent) → supported_shape_error e ≡ none → Shaped e
supported_shape_error-Shaped e h =
    let created = is_instant-some e.created (ground (arith, h)) in
    let livemode = is_boolean-some e.livemode (ground (arith, h)) in
    record {
      created = created.0;
      is_created = created.1;
      in_range = created.2;
      livemode = livemode.0;
      is_livemode = livemode.1;
      data_here = ground (arith, h);
      object_here = ground (arith, h);
      object_id_here = ground (arith, h);
    }

module _ (p : Processor) (e : WebhookEvent) (id : ℕ) (t : EventType) (db : Db) where
  rejected-Rejects :
      (kind : PackIncidentKind) (reason : EventReason)
      → process p e db ≡ reject_event id kind reason (claim_event id e.livemode db)
      → Rejects p e id db
  unfolding reject_event record_incident
  rejected-Rejects kind reason h = record {
    kind = kind;
    reason = reason;
    closed = _;
    is_closed = refl;
    result = h;
  }

  -- the processor does not trust the event
  abbrev pub Untrusted : Type 0
  Untrusted = ((is_supported t ≡ true) × (Shaped e → ⊥)) ⊎ Foreign p e

  misshapen-error :
      e.id ≡ some id
      → e.type ≡ some t
      → is_supported t ≡ true
      → (Shaped e → ⊥)
      → event_shape_error e ≢ none
  unfolding event_shape_error
  misshapen-error has_id has_type supported bad fine = bad (
      supported_shape_error-Shaped e (
        sym (
          ap (λ i. shape_error_of i e.type (supported_shape_error e)) has_id
          ∙ ap (λ u. shape_error_of (some id) u (supported_shape_error e)) has_type
          ∙ rw supported refl)
        ∙ fine))

  Foreign-mismatch : Foreign p e → contract_mismatch p e ≢ none
  unfolding contract_mismatch
  Foreign-mismatch f fine = elim f.differs [
    | inl mode ↦ mode (same_mode-some _ _ (ground (arith, f.unverified, fine)))
    | inr (v, expected, version) ↦
        version (equals_token-some v e.api_version (ground (arith, f.unverified, fine, expected)))
  ]

  checked_event-rejects :
      e.id ≡ some id
      → e.type ≡ some t
      → Untrusted
      → (kind : PackIncidentKind) × (reason : EventReason) × (checked_event p id t e
          ≡ reject_event id kind reason)
  unfolding checked_event
  checked_event-rejects has_id has_type bad = elim (Option-cases (event_shape_error e)) [
    | inr (error, misshapen) ↦
        (invalid_event_shape, shape error, rw (checked_event, misshapen) refl)
    | inl well_shaped ↦ elim bad [
      | inl (supported, unshaped) ↦
          absurd (misshapen-error has_id has_type supported unshaped well_shaped)
      | inr foreign ↦ elim (Option-cases (contract_mismatch p e)) [
        | inl fine ↦ absurd (Foreign-mismatch foreign fine)
        | inr (reason, mismatched) ↦
            (webhook_contract_mismatch, reason, rw (checked_event, well_shaped, mismatched) refl)
      ]
    ]
  ]

  -- An event with a valid id and type that is new and not under a lost lease, and that is supported but
  -- lacks the shape of its kind, or was not read from Stripe by the service and is of another mode or API
  -- version, is ignored: whatever the projector is, all that the database gets is a closed row of the
  -- inbox and an incident.
  pub process-Rejects :
      e.id ≡ some id
      → e.type ≡ some t
      → claim_current e db ≡ true
      → has_committed_event id db ≡ false
      → Untrusted
      → Rejects p e id db
  process-Rejects has_id has_type current new bad =
      let s = checked_event-rejects has_id has_type bad in
      rejected-Rejects s.0 s.1 (
        process-process_event p e db id t has_id has_type
        ∙ claimed-process_event p id t e db current new
        ∙ ap (λ m. m (claim_event id e.livemode db)) s.2)
