-- ===== src/Credit/Tables.antt =====
-- backend/app/credit_models.py and the columns of identity_models.py's User that the credit system reads: one
-- record for each row, one list for each table. A UUID is a number. Columns that a CHECK constraint
-- keeps from being negative are naturals; the deltas of a ledger event are integers.
pub mod Ledger
use ai_multimodal_platform.Prelude.{
  ℕ, suc, zero, ◌+◌, String, Bool, Option, none, some, List, [], ◌∷◌, ◌++◌, map, filter, find,
  sort_by, ltb, leb, ◌==◌, str_eq, ◌&&◌, ◌||◌, if◌then◌else◌,
}
use ai_multimodal_platform.Prelude.Int.{ℤ}
use ai_multimodal_platform.Credit.Policy.{Meter, Plan, meter_rank}

pub data UserRole : Type 0 where
  user master : UserRole

pub data UserStatus : Type 0 where
  active suspended : UserStatus

pub record User : Type 0 where
  pub id : ℕ
  pub role : UserRole
  pub status : UserStatus
  pub signed_up_at : ℕ

pub record CreditAccount : Type 0 where
  pub user_id : ℕ
  pub cycle_anchor_at : ℕ
  pub plan : Plan
  pub pending_plan : Option Plan
  pub created_at : ℕ
  pub updated_at : ℕ

pub record CreditCycle : Type 0 where
  pub id : ℕ
  pub user_id : ℕ
  pub cycle_index : ℕ
  pub starts_at : ℕ
  pub ends_at : ℕ
  pub plan : Plan
  pub allowance_microcredits : ℕ
  pub created_at : ℕ

pub data GrantKind : Type 0 where
  base bonus : GrantKind

pub record CreditGrant : Type 0 where
  pub id : ℕ
  pub user_id : ℕ
  pub cycle_id : Option ℕ
  pub kind : GrantKind
  pub created_at : ℕ
  pub expires_at : Option ℕ
  pub granted_microcredits : ℕ
  pub reserved_microcredits : ℕ
  pub consumed_microcredits : ℕ
  pub expired_microcredits : ℕ
  pub reason_code : String

pub data OperationKind : Type 0 where
  plan_change bonus_grant : OperationKind

pub data Outcome : Type 0 where
  upgraded scheduled cancelled unchanged granted : Outcome

pub record CreditOperation : Type 0 where
  pub user_id : ℕ
  pub operation_key : String
  pub kind : OperationKind
  pub target_plan : Option Plan
  pub amount_microcredits : Option ℕ
  pub expires_at : Option ℕ
  pub reason_code : Option String
  pub rate_card_version : String
  pub effective_at : ℕ
  pub result_cycle_id : ℕ
  pub result_grant_id : Option ℕ
  pub outcome : Outcome

pub data ReservationStatus : Type 0 where
  held settled released : ReservationStatus

pub record CreditReservation : Type 0 where
  pub id : ℕ
  pub user_id : ℕ
  pub reserve_operation_key : String
  pub rate_card_version : String
  pub status : ReservationStatus
  pub reserved_microcredits : ℕ
  pub created_at : ℕ
  pub terminal_operation_key : Option String
  pub terminal_at : Option ℕ
  pub terminal_reason_code : Option String
  pub delivery : Option String

pub record CreditReservationItem : Type 0 where
  pub reservation_id : ℕ
  pub user_id : ℕ
  pub meter : Meter
  pub maximum_units : ℕ
  pub quoted_microcredits : ℕ

pub record CreditReservationAllocation : Type 0 where
  pub reservation_id : ℕ
  pub grant_id : ℕ
  pub user_id : ℕ
  pub ordinal : ℕ
  pub reserved_microcredits : ℕ

pub record CreditUsageRecord : Type 0 where
  pub reservation_id : ℕ
  pub meter : Meter
  pub user_id : ℕ
  pub terminal_operation_key : String
  pub rate_card_version : String
  pub actual_units : ℕ
  pub charged_microcredits : ℕ
  pub recorded_at : ℕ
  pub source : String
  pub delivery : String

pub data EventKind : Type 0 where
  grant adjust expire reserve settle release : EventKind

-- The keys that the code builds from a prefix and an id, a number or a caller's key.
pub data EventKey : Type 0 where
  reserve_key terminal_key expire_key cycle_base_key : ℕ → EventKey
  command_key : String → EventKey

pub record CreditLedgerEvent : Type 0 where
  pub id : ℕ
  pub user_id : ℕ
  pub grant_id : ℕ
  pub kind : EventKind
  pub operation_key : EventKey
  pub rate_card_version : String
  pub granted_delta : ℤ
  pub reserved_delta : ℤ
  pub consumed_delta : ℤ
  pub expired_delta : ℤ
  pub created_at : ℕ
  pub reason_code : String

-- The session: the tables, whether a transaction is open, and the ids that `uuid4()` will return.
-- A call that raises gives no session back: `begin_nested` rolls its savepoint back.
pub record Session : Type 0 where
  pub in_transaction : Bool
  pub uuid4 : ℕ → ℕ
  pub users : List User
  pub accounts : List CreditAccount
  pub cycles : List CreditCycle
  pub grants : List CreditGrant
  pub operations : List CreditOperation
  pub reservations : List CreditReservation
  pub items : List CreditReservationItem
  pub allocations : List CreditReservationAllocation
  pub usage_records : List CreditUsageRecord
  pub ledger_events : List CreditLedgerEvent

-- `uuid4()`: the next id, and the session from which the one after it will be drawn.
abbrev pub next_id : Session → ℕ
next_id s = s.uuid4 0

abbrev pub drawn : Session → Session
drawn s = record s { uuid4 = λ n. s.uuid4 (suc n) }

-- Queries.
abbrev pub user_of : ℕ → Session → Option User
user_of uid s = find (λ u. u.id == uid) s.users

abbrev pub account_of : ℕ → Session → Option CreditAccount
account_of uid s = find (λ a. a.user_id == uid) s.accounts

-- ORDER BY cycle_index DESC LIMIT 1
abbrev cycle_later : CreditCycle → CreditCycle → Bool
cycle_later a b = leb b.cycle_index a.cycle_index

unfoldable pub latest_cycle : ℕ → Session → Option CreditCycle
latest_cycle uid s = find (λ c. c.user_id == uid) (sort_by cycle_later s.cycles)

abbrev pub grant_id_before : CreditGrant → CreditGrant → Bool
grant_id_before a b = leb a.id b.id

-- ORDER BY id
unfoldable pub grants_of : ℕ → Session → List CreditGrant
grants_of uid s = sort_by grant_id_before (filter (λ g. g.user_id == uid) s.grants)

abbrev pub event_before : CreditLedgerEvent → CreditLedgerEvent → Bool
event_before a b = ltb a.created_at b.created_at || (a.created_at == b.created_at && leb a.id b.id)

-- ORDER BY created_at, id
unfoldable pub events_of : ℕ → Session → List CreditLedgerEvent
events_of uid s = sort_by event_before (filter (λ e. e.user_id == uid) s.ledger_events)

-- Writes. The columns of one row are written through its object, which the identity map keeps one
-- of for each id.
abbrev pub update_grants : ℕ → (CreditGrant → CreditGrant) → List CreditGrant → List CreditGrant
update_grants gid f [] = []
update_grants gid f (g ∷ gs) = (if g.id == gid then f g else g) ∷ update_grants gid f gs

abbrev pub update_grant : ℕ → (CreditGrant → CreditGrant) → Session → Session
update_grant gid f s = record s { grants = update_grants gid f s.grants }

abbrev pub add_event : CreditLedgerEvent → Session → Session
add_event e s = record s { ledger_events = s.ledger_events ++ e ∷ [] }
