-- ===== src/Worker/Audit/Records.antt =====
-- What the audit worker leaves in the table, internal/worker/audit_worker.go.
use mathlib.Core.List.{append_assoc, append-nil}
use wallet_ledger_service.Common.{
  refl, ◌∙◌, true, false, Bool-cases, none, Option-cases, ◌⊎◌, str_eq, String, ◌≡◌, ap, ⊤, some,
  List, [], ◌∷◌, ◌++◌, arith, inl, inr,
}
use wallet_ledger_service.Model.{Uuid, AuditLog}
use wallet_ledger_service.Database.{AuditLogRow}
use wallet_ledger_service.Sql.AuditLogs.{create_audit_log}
use wallet_ledger_service.World.{Env, World}
use wallet_ledger_service.World.Appends.{
  Table, Good, Bad, Appends, Appends-weaken, Appends-after, Appends-map, Appends-wrap,
  Appends-still, Appends-or_fail,
}
use wallet_ledger_service.World.Inserts.{Fails, Inserts, Appends-query}
use wallet_ledger_service.Utils.Ids.Effects.{generate_audit_log_id-Stays}
use wallet_ledger_service.Repository.AuditLogs
use wallet_ledger_service.Service.Audit.{create_log}
use wallet_ledger_service.Worker.Messages.{WalletEventMsg, AuditData, Decoders}
use wallet_ledger_service.Worker.Consume.{consume_loop, Handled, consume_loop-Handled}
use wallet_ledger_service.Worker.Audit.{or_else, with_data, log_of, process_audit}

abbrev pub audit_table : Table AuditLogRow
audit_table = record {
  add = λ d rows. record d { audit_logs = d.audit_logs ++ rows };
  add_nil = λ d. ap (λ ls. record d { audit_logs = ls }) (append-nil d.audit_logs);
  add_add = λ d xs ys. ap (λ ls. record d { audit_logs = ls }) (append_assoc d.audit_logs xs ys);
}

-- A row that holds what a log says.
abbrev Holds : AuditLog → AuditLogRow → Type 0
Holds log row =
    (row.user_id ≡ some log.user_id)
    × (row.action ≡ log.action)
    × (row.ip_address ≡ log.ip_address)
    × (row.endpoint ≡ log.endpoint)

-- The first text, or the second where the first is empty.
abbrev pub Chosen : String → String → String → Type 0
Chosen s t r = ((str_eq s "" ≡ false) × (r ≡ s)) ⊎ ((str_eq s "" ≡ true) × (r ≡ t))

-- The row of an event: it names the event's user, and has the event's type, address and endpoint;
-- but the texts of an AUDIT event's own data, where it can be read, stand in place of these unless
-- they are empty.
abbrev pub Recorded : Decoders → WalletEventMsg → Uuid → AuditLogRow → Type 0
Recorded decoders evt uid row =
    (row.user_id ≡ some uid)
    × ((((str_eq evt.event_type "AUDIT" ≡ false) ⊎ (decoders.audit_data evt.event_data ≡ none))
          × (row.action ≡ evt.event_type)
          × (row.ip_address ≡ evt.ip_address)
          × (row.endpoint ≡ evt.endpoint))
        ⊎ ((own : AuditData) × (str_eq evt.event_type "AUDIT" ≡ true)
            × (decoders.audit_data evt.event_data ≡ some own)
            × Chosen own.action evt.event_type row.action
            × Chosen own.ip_address evt.ip_address row.ip_address
            × Chosen own.endpoint evt.endpoint row.endpoint))

chosen_lem : (s t r : String) → r ≡ or_else s t → Chosen s t r
chosen_lem s t r h = elim (Bool-cases (str_eq s "")) [
  | inl bare ↦ inr (bare, h ∙ rw bare refl)
  | inr full ↦ inl (full, h ∙ rw full refl)
]

-- The log of an event without data of its own.
abbrev plain : WalletEventMsg → Uuid → AuditLog
plain evt uid = record {
  id = "";
  user_id = uid;
  action = evt.event_type;
  ip_address = evt.ip_address;
  endpoint = evt.endpoint;
  created_at = evt.timestamp;
}

log_of-Recorded :
    (decoders : Decoders) (evt : WalletEventMsg) (uid : Uuid) (row : AuditLogRow)
    → Holds (log_of decoders evt uid) row
    → Recorded decoders evt uid row
unfolding log_of
log_of-Recorded decoders evt uid row (a, b, c, e) =
    elim (Bool-cases (str_eq evt.event_type "AUDIT")) [
      | inl audit ↦ elim (Option-cases (decoders.audit_data evt.event_data)) [
        | inl bare ↦
            let same : log_of decoders evt uid ≡ plain evt uid = rw (log_of, audit, bare) refl in
            stands (inr bare) same
        | inr (own, found) ↦
            let same : log_of decoders evt uid ≡ with_data (plain evt uid) (some own) =
              rw (log_of, audit, found) refl in
            (
              a ∙ ap (λ (l : AuditLog). some l.user_id) same,
              inr (
                own,
                audit,
                found,
                chosen_lem _ _ _ (b ∙ ap (λ (l : AuditLog). l.action) same),
                chosen_lem _ _ _ (c ∙ ap (λ (l : AuditLog). l.ip_address) same),
                chosen_lem _ _ _ (e ∙ ap (λ (l : AuditLog). l.endpoint) same),
              ),
            )
      ]
      | inr other ↦
          let same : log_of decoders evt uid ≡ plain evt uid = rw (log_of, other) refl in
          stands (inl other) same
    ]
  where
    stands :
        (str_eq evt.event_type "AUDIT" ≡ false) ⊎ (decoders.audit_data evt.event_data ≡ none)
        → log_of decoders evt uid ≡ plain evt uid
        → Recorded decoders evt uid row
    stands reason same = (
      a ∙ ap (λ (l : AuditLog). some l.user_id) same,
      inl (
        reason,
        b ∙ ap (λ (l : AuditLog). l.action) same,
        c ∙ ap (λ (l : AuditLog). l.ip_address) same,
        e ∙ ap (λ (l : AuditLog). l.endpoint) same,
      ),
    )

create_audit_log-Inserts :
    (env : Env) (id : String) (log : AuditLog)
    → Inserts audit_table
        (λ n. create_audit_log (env.now n) (record {
          id = id;
          user_id = some log.user_id;
          action = log.action;
          ip_address = log.ip_address;
          endpoint = log.endpoint;
        }))
        (Holds log)
unfolding create_audit_log
create_audit_log-Inserts env id log n d a d' h =
    (a, ground arith, (ground arith, ground arith, ground arith, ground arith))

-- One row, of which `P` holds; and the same or none, where a call has failed.
abbrev pub One : (AuditLogRow → Type 0) → List AuditLogRow → Type 0
One P rows = (row : AuditLogRow) × (rows ≡ row ∷ []) × P row

abbrev pub OneOrNone : Env → (AuditLogRow → Type 0) → List AuditLogRow → Type 0
OneOrNone env P rows = (rows ≡ []) ⊎ (One P rows × Fails env)

module _ (env : Env) where
  create-Appends :
      (log : AuditLog)
      → Appends audit_table
          (AuditLogs.create env log)
          (λ d a rows. One (Holds log) rows)
          (λ d rows. OneOrNone env (Holds log) rows)
  unfolding AuditLogs.create
  create-Appends log =
      Appends-weaken audit_table
        (Appends-map audit_table _ (
          Appends-wrap audit_table _ (
            Appends-query audit_table env _ (Holds log) (create_audit_log-Inserts env log.id log))))
        (λ d a rows (x, same, one). one)
        (λ d rows e. elim e [ inl (none_yet, _) ↦ inl none_yet | inr lost ↦ inr lost ])

  create_log-Appends :
      (log : AuditLog)
      → Appends audit_table
          (create_log env log)
          (λ d a rows. One (Holds log) rows)
          (λ d rows. OneOrNone env (Holds log) rows)
  unfolding create_log
  create_log-Appends log =
      Appends-weaken audit_table
        (Appends-after audit_table
          (Appends-still audit_table (λ d id. ⊤) (generate_audit_log_id-Stays env).db_same
            (λ w id e. tt))
          (λ id. Appends-map audit_table _ (create-Appends (record log { id = id }))))
        (λ d a rows (id, _, (created, _, one)). one)
        (λ d rows b. elim b [ inl e ↦ inl e | inr (id, _, e) ↦ e ])

  -- The event of a delivery, with its user.
  abbrev pub OfEvent : Decoders → String → (WalletEventMsg → Uuid → Type 0) → Type 0
  OfEvent decoders body P =
      (evt : WalletEventMsg) × (decoders.event body ≡ some evt)
      × ((uid : Uuid) × (decoders.parse_uuid evt.user_id ≡ some uid) × P evt uid)

  -- An acknowledged event has its row.
  abbrev pub Audited : Decoders → String → Good ⊤ AuditLogRow
  Audited decoders body d u rows =
      OfEvent decoders body (λ evt uid. One (Recorded decoders evt uid) rows)

  -- Another has none, or it has its row and the reply of the statement is lost.
  abbrev pub Unaudited : Decoders → String → Bad AuditLogRow
  Unaudited decoders body d rows =
      (rows ≡ [])
      ⊎ OfEvent decoders body (λ evt uid. One (Recorded decoders evt uid) rows × Fails env)

  process_audit-Appends :
      (decoders : Decoders) (body : String)
      → Appends audit_table
          (process_audit env decoders body)
          (Audited decoders body)
          (Unaudited decoders body)
  unfolding process_audit
  process_audit-Appends decoders body =
      Appends-weaken audit_table
        (Appends-after audit_table
          (Appends-wrap audit_table _ (Appends-or_fail audit_table (decoders.event body) _))
          (λ evt.
            Appends-after audit_table
              (Appends-wrap audit_table _
                (Appends-or_fail audit_table (decoders.parse_uuid evt.user_id) _))
              (λ uid. create_log-Appends (log_of decoders evt uid))))
        (λ d u rows (evt, read, (uid, known, (row, one, holds))).
          (evt, read, (uid, known, (row, one, log_of-Recorded decoders evt uid row holds))))
        (λ d rows b. elim b [
          | inl e ↦ inl e
          | inr (evt, _, inl e) ↦ inl e
          | inr (evt, read, inr (uid, known, inl e)) ↦ inl e
          | inr (evt, read, inr (uid, known, inr ((row, one, holds), fails))) ↦ inr (
            evt,
            read,
            (uid, known, ((row, one, log_of-Recorded decoders evt uid row holds), fails)),
          )
        ])

  -- The audit worker changes no table but the audit logs, and only adds to them. Each delivery
  -- that it acknowledges has added one row, which is what `Recorded` says of its event: the user,
  -- and the type, the address and the endpoint, but the texts of an AUDIT event's own data in
  -- place of these where they are not empty. One that is put back, or at which the process panics,
  -- has added none, or that row where a call has failed; after a panic nothing more is consumed.
  -- This holds for any deliveries, and whichever calls fail before or after they are carried out.
  pub process_audit-Handled :
      (decoders : Decoders) (bodies : List String) (w : World)
      → (rows : List AuditLogRow) × ((consume_loop (process_audit env decoders) bodies w).1.db
          ≡ record w.db { audit_logs = w.db.audit_logs ++ rows })
        × Handled audit_table
            (Audited decoders)
            (Unaudited decoders)
            w.db
            bodies
            (consume_loop (process_audit env decoders) bodies w).0
            rows
  process_audit-Handled decoders =
      consume_loop-Handled audit_table (Audited decoders) (Unaudited decoders)
        (process_audit env decoders) (process_audit-Appends decoders)
