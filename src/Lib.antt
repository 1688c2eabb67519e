-- ===== src/Lib.antt =====
-- The business backend: its notification outbox, the staff hierarchy with the access rules that read
-- it, the lifecycle of tasks, the ledger with the settlement of invoices, and the fulfilment of purchase orders.
--
-- Parts and how they interact. A service of `tasks/services/lifecycle.py` locks a task, asks the rules of
-- `tasks/services/access.py` whether the actor may act, changes the row, validates it by the `clean` and the
-- check constraints of `tasks/models.py`, saves it, writes the history and the audit log, cancels the
-- task's reminders by `tasks/services/reminders.py` and leaves notifications for the commit. The rules search
-- the reporting lines of `accounts/models.py`. Cancelled reminders cancel their notifications by
-- `notifications/services/scheduling.py`; the worker of `notifications/services/delivery.py` claims due
-- deliveries, calls a provider and marks the rows. The ledger posts a record as one entry of lines by `journal`;
-- `reverse` posts the same lines with the sides swapped. `allocate` and `release` apply sources of settlement
-- to posted invoices, with the tax that is collected along. The services of `procurement/services.py` pass quantities
-- from attempts to purchases, receipts, deliveries, outcomes and the resolution of what was rejected.
--
-- Files and sources.
--   Base                    Boolean tests, tables of rows as lists, texts with `strip`
--   Accounts/Data           rows of `accounts/models.py`
--   Accounts/Hierarchy      `get_reporting_descendant_profile_ids` of `tasks/services/access.py`
--   Notifications/Data      rows and enumerations of `notifications/models.py`, `constants.py`, `exceptions.py`
--   Notifications/Delivery  `_claim_delivery`, `_mark_success`, `_mark_failure`, `dispatch_delivery`
--   .../Outbox              release of stale locks, selection, the outbox pass, `retry_delivery`
--   .../Scheduling          `cancel_scheduled_notification` of `notifications/services/scheduling.py`
--   .../Reach               the deliveries' steps as a relation on stores
--   Tasks/Data              rows and enumerations of `tasks/models.py` and `tasks/constants.py`
--   Tasks/Access            `tasks/services/access.py`
--   Tasks/Validation        `clean` and the check constraints of `tasks/models.py`
--   Tasks/Effects           `_require_actor`, `_lock_task`, saving, `tasks/services/activities.py`,
--                           `tasks/services/task_notifications.py`, `create_audit_log` of `accounts/utils.py`
--   Tasks/Reminders         the automatic cancellations of `tasks/services/reminders.py`
--   Tasks/Lifecycle         `transition_task_status`, `cancel_task`, `archive_task`, `restore_task`
--   Tasks/Batches           `cancel_task_batch`, `archive_task_batch`, `restore_task_batch`
--   Tasks/Batches/Editing   `update_task_batch`
--   Tasks/Visibility        `visible_tasks_for`, `can_view_task` and the rules on comments of
--                           `tasks/services/access.py`
--   Tasks/Services          the eight services as requests, and sequences of them
--   Accounts/Staffing       `StaffProfile.clean` and `DepartmentLeadership.clean` of `accounts/models.py`
--   Ledger/Data             rows of `ledger/models/accounting.py` and `finance.py`
--   Ledger/Money            `amount` of `ledger/services/common.py`
--   Ledger/Access           `require`, `visible_records`, `get_record` of `ledger/services/common.py`
--   Ledger/Posting          `lock_period`, `account_currency`, `journal` of `ledger/services/posting.py`
--   Ledger/Reversal         the entry that `reverse` of `ledger/services/reversals.py` posts
--   Ledger/Settlement       `applied`, `invoice_due`, `source_available` of `ledger/services/settlement.py`
--   .../Allocation          `tax_collected`, `allocate`
--   .../Release             `release`
--   Ledger/Statement        `generate` of `ledger/selectors/statements.py`
--   Procurement/Fulfilment  `create_purchase`, `create_receipt`, `create_delivery`, `dispatch`, `record_outcome`
--                           of `procurement/services.py`
--   .../Resolution          `resolve_rejection`
--   .../Services            these services as requests, and sequences of them
--
-- State and operations. A table is a list of rows and a query set is a selection from it; `filter(...)
-- .update(...)` rewrites the rows that a test accepts. A service inside `transaction.atomic` returns the store
-- that it leaves, or an error, and then the caller keeps the store from before. Each reading of the clock
-- is an argument, in microseconds. An id is a natural number; UUIDs are used only for equality.
--
-- Bounds and fuel. The search of the hierarchy takes one round for each profile and one more; every round
-- that goes on finds a profile that was not found before, so that the fuel is never used up. The walk up the
-- reporting line takes two more than there are profiles, and stops at a profile that it has visited. All other loops run over a
-- list. An amount of money is a number of ten-thousandths, as the four decimal places of `money` hold it;
-- `Decimal` has 28 digits, and the one quotient, in `release`, is exact here: the two agree while
-- amounts have at most fourteen digits. Counters and attempts are natural numbers without a bound, as in Python.
--
-- Parameters. In `procurement/services.py` what a service checks of requests, parties and documents is an
-- argument, a result that may refuse. A provider that leaves the process is the argument `send`, whose outcome
-- is a result or one of the exceptions; Django's permission backend is the field `has_perm` of a site.
--
-- Not modelled: the creation of notifications and their recipients, the services that assign tasks, comment on
-- them or set reminders by hand, the ledger's documents (invoices, receipts, payments, approvals, taxes), its
-- operations, evidence and tracking, the requests, quotations and milestones of procurement, and CRM, which are
-- components of their own; the texts of messages in full, metadata and snapshots of the history, which nothing
-- reads back; views, serializers and administration, which are glue of the framework.
pub mod Base
pub mod Accounts
pub mod Notifications
pub mod Tasks
pub mod Ledger
pub mod Procurement
