-- ===== src/Invoice/Service/Rollback.antt =====
-- What a failed `InvoiceGenerate` and a dry run leave.
use antitimely.Prelude.{
  ◌≡◌, ◌≢◌, refl, sym, ap, subst, ◌∙◌, ◌⊎◌, inl, inr, Bool, true, false, not, ◌&&◌, arith,
  Bool-cases,
}
use antitimely.Prelude.Text.{Str}
use antitimely.Invoice.Config.{Sender}
use antitimely.Invoice.Ledger.{Ledger, seed_sender_state}
use antitimely.Invoice.Service.{Failures, Host, ServiceError, Result, failed, ok, seeded, settle}
use antitimely.Invoice.Service.Generate.{
  GenerateArgs, GenerateReply, Plan, Draft, plan, draft, issue, invoice_generate, reply_of,
  newest_id,
}
use antitimely.Invoice.Service.Drawdown.{result-cases, draft-Drafted}

-- What a transaction that did not end well leaves: the ledger as it was. The PDF is moved last, so
-- that step fails after the commit.
settle-failed {ℓ} :
    {A : Type ℓ} (f : Failures) (dry : Bool) (before after : Ledger) (reply : A) (e : ServiceError)
    → (settle f dry before after reply).1 ≡ failed e
    → e ≢ ServiceError.moving
    → (settle f dry before after reply).0 ≡ before
unfolding settle
settle-failed f dry before after reply e h n = ground arith

settle-same {ℓ} :
    {A : Type ℓ} (f : Failures) (dry : Bool) (l : Ledger) (reply : A)
    → (settle f dry l l reply).0 ≡ l
unfolding settle
settle-same f dry l reply = ground arith

abbrev Issued : Host → GenerateArgs → Plan → Ledger → Ledger × Result GenerateReply → Type 0
Issued host args p l (l', r) =
    ((e : ServiceError) → r ≡ failed e → e ≢ ServiceError.moving → l' ≡ l)
    × (args.dry_run ≡ true → l' ≡ l)

issue-Issued :
    (host : Host) (args : GenerateArgs) (p : Plan) (l : Ledger)
    → Issued host args p l (issue host args p l)
unfolding issue
issue-Issued host args p l = go (draft host args p l) refl
  where
    go :
        (r : Result Draft)
        → draft host args p l ≡ r
        → Issued host args p l (elim r as (λ x. Ledger × Result GenerateReply) [
          | failed e ↦ (l, failed e)
          | ok d ↦
              settle host.failures args.dry_run l d.ledger
                (reply_of args p d (newest_id d.ledger.invoices))
        ])
    go (failed e) h = ((λ e' k n. refl), λ t. refl)
    go (ok d) h =
        let reply = reply_of args p d (newest_id d.ledger.invoices) in
        let (_, _, dry, _) = draft-Drafted host args p l d h in
        (
          (λ e k n. settle-failed host.failures args.dry_run l d.ledger reply e k n),
          λ t.
              subst (λ x. (settle host.failures args.dry_run l x reply).0 ≡ l) (sym (dry t))
                (settle-same host.failures args.dry_run l reply),
        )

-- An error other than the last step's leaves every invoice as it was, and gives back the number
-- taken in the transaction. Only the seed of a sender's counter, which is made before the
-- transaction, may stay.
pub invoice_generate-failed :
    (host : Host) (args : GenerateArgs) (l : Ledger) (e : ServiceError)
    → (invoice_generate host args l).1 ≡ failed e
    → e ≢ ServiceError.moving
    → ((invoice_generate host args l).0 ≡ l)
      ⊎ ((key : Str) × (s : Sender) × ((invoice_generate host args l).0
            ≡ seed_sender_state key s.invoice.next_number l))
unfolding invoice_generate seeded
invoice_generate-failed host args l e h n = elim (result-cases (plan host args l)) [
  | inl (e', k) ↦ inl (rw (k, invoice_generate) refl)
  | inr (p, k) ↦ elim (Bool-cases (not args.dry_run && host.failures.seed_state)) [
    | inl b ↦ inl (rw (k, invoice_generate) (rw b refl))
    | inr b ↦
        let l' = seeded args.dry_run p.sender_key p.sender l in
        let run : invoice_generate host args l ≡ issue host args p l' =
          rw (k, invoice_generate) (rw b refl) in
        let back : (issue host args p l').0 ≡ l' =
          (issue-Issued host args p l').0 e (ap (λ x. x.1) (sym run) ∙ h) n in
        elim (Bool-cases args.dry_run) [
          | inl d ↦ inl (ap (λ x. x.0) run ∙ back ∙ ap (λ b. seeded b p.sender_key p.sender l) d)
          | inr d ↦ inr (
            p.sender_key,
            p.sender,
            ap (λ x. x.0) run ∙ back ∙ ap (λ b. seeded b p.sender_key p.sender l) d,
          )
        ]
  ]
]

-- A dry run changes nothing, whether it succeeds or fails, and at whatever step: no row, no number
-- taken, no counter seeded.
pub invoice_generate-dry_run :
    (host : Host) (args : GenerateArgs) (l : Ledger)
    → args.dry_run ≡ true
    → (invoice_generate host args l).0 ≡ l
unfolding invoice_generate seeded
invoice_generate-dry_run host args l dry = elim (result-cases (plan host args l)) [
  | inl (e', k) ↦ rw (k, invoice_generate) refl
  | inr (p, k) ↦
      let b : (not args.dry_run && host.failures.seed_state) ≡ false = ground arith in
      let l' = seeded args.dry_run p.sender_key p.sender l in
      let run : invoice_generate host args l ≡ issue host args p l' =
        rw (k, invoice_generate) (rw b refl) in
      ap (λ x. x.0) run
      ∙ (issue-Issued host args p l').1 dry
      ∙ ap (λ b. seeded b p.sender_key p.sender l) dry
]
