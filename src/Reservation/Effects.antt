-- ===== src/Reservation/Effects.antt =====
-- effects.go, and `toReservation` of convert.go: what a command does inside its transaction besides
-- changing the table. The collaborators and what they store are parameters.
use nise_and_go.Common.{◌-◌, ℕ, not, List, [], Option, none, some, if◌then◌else◌}
use nise_and_go.Common.Text.{Bytes, is_empty}
use nise_and_go.Common.Result.{Result, ok, err, ◌>>=◌}
use nise_and_go.Common.Clock.{Time, before, zero_time, hour, add_time}
use nise_and_go.Common.Int.{negsuc}
use nise_and_go.Reservation.Window.{State, ReservationError, failed}
use nise_and_go.Reservation.Store.{Uuid, Row, Resource}

pub record Reservation : Type 0 where
  pub id : Bytes
  pub org_id : Bytes
  pub resource_id : Bytes
  pub holder_id : Bytes
  pub starts_at : Time
  pub ends_at : Time
  pub state : State
  pub note : Bytes
  pub return_note : Bytes
  pub return_photo_key : Bytes
  pub checked_out_at : Time
  pub returned_at : Time
  pub cancelled_at : Time
  pub created_at : Time
  pub updated_at : Time

pub data Action : Type 0 where
  action_created action_checked_out action_returned action_cancelled action_no_show : Action

pub data ActorKind : Type 0 where
  user system : ActorKind

-- audit.Event, as `recordAndEnqueue` fills it.
pub record Event : Type 0 where
  pub action : Action
  pub actor_kind : ActorKind
  pub actor_id : Bytes
  pub subject_id : Bytes
  pub resource_id : Bytes
  pub state : State

-- A job's arguments, and when it is to run; `none` is at once.
pub data JobKind : Type 0 where
  confirmation reminder no_show_check : JobKind

pub record Job : Type 0 where
  pub kind : JobKind
  pub org_id : Bytes
  pub reservation_id : Bytes
  pub scheduled_at : Option Time

-- notifications.New, less its fixed texts.
pub record Notice : Type 0 where
  pub recipient_id : Bytes
  pub starts_at : Time
  pub ends_at : Time

-- The collaborators, on what they store, `F`; each may be missing, and each may fail.
pub record Options (F : Type 0) : Type 0 where
  pub audit : Option (Event → F → Option F)
  pub jobs : Option (Job → F → Option F)
  pub notify : Option (Notice → F → Option F)

-- What one call reads: the text forms of identifiers, the table of resources, the clock of the
-- process and that of the database, the identifier that the database would generate.
pub record Env (F : Type 0) : Type 0 where
  pub options : Options F
  pub parse_uuid : Bytes → Option Uuid
  pub uuid_string : Uuid → Bytes
  pub resources : List Resource
  pub now : Time
  pub db_now : Time
  pub fresh : Uuid

-- What a transaction changes.
pub record Db (F : Type 0) : Type 0 where
  pub rows : List Row
  pub effects : F

abbrev pub time_of : Option Time → Time
time_of none = zero_time
time_of (some t) = t

abbrev pub text_of : Option Bytes → Bytes
text_of none = []
text_of (some s) = s

-- A nil collaborator does nothing.
abbrev pub call : {F C : Type 0} → Option (C → F → Option F) → C → F → Result ReservationError F
call none c f = ok f
call (some g) c f = elim (g c f) [ none ↦ err failed | some h ↦ ok h ]

abbrev pub of_option {ℓ} : {A : Type ℓ} → ReservationError → Option A → Result ReservationError A
of_option e none = err e
of_option e (some a) = ok a

abbrev pub reminder_lead_time : ℕ
reminder_lead_time = hour

abbrev job : Bytes → Reservation → JobKind → Option Time → Job
job org_id row kind at = record {
  kind = kind;
  org_id = org_id;
  reservation_id = row.id;
  scheduled_at = at;
}

module _ {F : Type 0} where
  abbrev pub to_reservation : Env F → Row → Reservation
  to_reservation e r = record {
    id = e.uuid_string r.id;
    org_id = e.uuid_string r.org;
    resource_id = e.uuid_string r.resource;
    holder_id = e.uuid_string r.holder;
    starts_at = r.lower;
    ends_at = r.upper;
    state = r.state;
    note = r.note;
    return_note = r.return_note;
    return_photo_key = text_of r.return_photo_key;
    checked_out_at = time_of r.checked_out_at;
    returned_at = time_of r.returned_at;
    cancelled_at = time_of r.cancelled_at;
    created_at = r.created_at;
    updated_at = r.updated_at;
  }

  abbrev pub record_and_enqueue :
      Env F → Action → Bytes → Reservation → F → Result ReservationError F
  record_and_enqueue e action actor_id row = call e.options.audit (record {
    action = action;
    actor_kind = if is_empty actor_id then system else user;
    actor_id = actor_id;
    subject_id = row.id;
    resource_id = row.resource_id;
    state = row.state;
  })

  unfoldable pub schedule_confirmation_and_reminder :
      Env F → Bytes → Reservation → F → Result ReservationError F
  schedule_confirmation_and_reminder e org_id row f = do
    f1 ← call e.options.jobs (job org_id row confirmation none) f
    f2 ← call e.options.jobs (job org_id row no_show_check (some row.ends_at)) f1
    let remind_at = add_time row.starts_at (negsuc (reminder_lead_time - 1))
    if not (before e.now remind_at)
        then ok f2
        else call e.options.jobs (job org_id row reminder (some remind_at)) f2

  abbrev pub notify_no_show : Env F → Reservation → F → Result ReservationError F
  notify_no_show e row =
      call e.options.notify
        (record { recipient_id = row.holder_id; starts_at = row.starts_at; ends_at = row.ends_at })
