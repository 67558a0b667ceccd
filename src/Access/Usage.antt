-- ===== src/Access/Usage.antt =====
-- apps/api/policy/accounting.py and apps/api/middleware/policy_accounting.py: usage events.
use kra_analysis.Prelude.{
  ℕ, String, List, [], ◌∷◌, ◌++◌, Option, none, some, Bool, if◌then◌else◌, ltb, str_eq,
}
use kra_analysis.Prelude.Value.{Value, obj, end}
use kra_analysis.Prelude.Result.{Result, ok, err}
use kra_analysis.Access.Policy.{UsageReservation}

-- A row of `usage_events`, less its generated columns.
pub record UsageEvent : Type 0 where
  pub principal_id : String
  pub owner_ref : String
  pub credential_id : Option String
  pub action : String
  pub units : ℕ
  pub outcome : String
  pub status_code : Option ℕ
  pub request_id : Option String
  pub method : Option String
  pub path : Option String
  pub error_detail : Option String
  pub event_metadata : Value

-- The table, and for each commit to come the text of the exception that it raises, if any.
pub record EventStore : Type 0 where
  pub usage_events : List UsageEvent
  pub outages : List (Option String)

-- What the middleware reads of a request, and what the handlers leave in its state.
pub record Request : Type 0 where
  pub method : String
  pub path : String
  pub header_request_id : Option String
  pub has_session_factory : Bool

pub record RequestState : Type 0 where
  pub usage_reservation : Option UsageReservation
  pub request_id : Option String

-- An answer, or the text of the exception.
abbrev pub Answer : Type 0
Answer = Result String ℕ

unfoldable pub usage_event :
    UsageReservation → Option String → Request → ℕ → Option String → UsageEvent
usage_event r request_id request status_code error_detail = record {
  principal_id = r.principal_id;
  owner_ref = r.owner_ref;
  credential_id = some r.credential_id;
  action = r.action;
  units = r.units;
  outcome = if ltb status_code 400 then "success" else "error";
  status_code = some status_code;
  request_id = request_id;
  method = some request.method;
  path = some request.path;
  error_detail = error_detail;
  event_metadata = obj end;
}

-- The event is written by the commit of a session of its own. The middleware passes no metadata.
abbrev store_event :
    List (Option String) → UsageEvent → EventStore → Result String Unit × EventStore
store_event [] event w = (ok tt, record w { usage_events = w.usage_events ++ event ∷ [] })
store_event (some exception ∷ rest) event w = (err exception, record w { outages = rest })
store_event (none ∷ rest) event w =
    (ok tt, record w { usage_events = w.usage_events ++ event ∷ []; outages = rest })

unfoldable pub commit : UsageEvent → EventStore → Result String Unit × EventStore
commit event w = store_event w.outages event w

-- state.request_id or the header
abbrev pub or_header : Option String → Option String → Option String
or_header none header = header
or_header (some id) header = if str_eq id "" then header else some id

abbrev pub commit_reserved :
    Option UsageReservation
    → RequestState
    → Request
    → ℕ
    → Option String
    → EventStore
    → Result String Unit × EventStore
commit_reserved none state request status error w = (ok tt, w)
commit_reserved (some r) state request status error w =
    if request.has_session_factory
    then commit
        (usage_event r (or_header state.request_id request.header_request_id) request status error)
        w
    else (ok tt, w)

unfoldable pub commit_request :
    RequestState → Request → ℕ → Option String → EventStore → Result String Unit × EventStore
unfolding commit usage_event
commit_request state request status error w =
    commit_reserved state.usage_reservation state request status error w

abbrev status_of : Answer → ℕ
status_of (ok status) = status
status_of (err exception) = 500

abbrev error_of : Answer → Option String
error_of (ok status) = none
error_of (err exception) = some exception

abbrev or_fresh : String → Option String → String
or_fresh fresh none = fresh
or_fresh fresh (some id) = if str_eq id "" then fresh else id

-- The state's request id, the header's or a new one.
abbrev pub identified : String → Request → RequestState → RequestState
identified fresh request state = record state {
  request_id = some (or_fresh fresh (or_header state.request_id request.header_request_id));
}

-- The middleware around `call_next`: the answer or the exception passes, whatever the commit does.
unfoldable pub dispatch :
    Request → String → Answer → RequestState → EventStore → Answer × EventStore
unfolding commit_request
dispatch request fresh answer state w =
    let committed =
      commit_request (identified fresh request state) request (status_of answer) (error_of answer)
        w in
    (answer, committed.1)
