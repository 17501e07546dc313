-- ===== src/ReportMetrics/Anomalies.antt =====
-- `security_anomalies` of app/services/report_metrics.py: what went wrong, grouped by person and
-- event.
use edtech_back.Base.{
  ℕ, ◌≡◌, ◌+◌, refl, ◌∙◌, Bool, ◌&&◌, ◌||◌, Option, List, [], ◌∷◌, Text, text_eq, ltb, max, ◌==◌,
  select, count_where, count-select, length, if◌then◌else◌, arith,
}
use edtech_back.Model.{SecurityLog, SecurityEvent, SecurityStatus, Db, days}
use edtech_back.SecurityRoutes.{event_number}
use edtech_back.ReportMetrics.{is_alert}

abbrev status_number : SecurityStatus → ℕ
status_number SecurityStatus.ok = 0
status_number SecurityStatus.warning = 1
status_number SecurityStatus.blocked = 2

-- `Anomaly`
pub record Anomaly : Type 0 where
  pub user_name : Text
  pub event : SecurityEvent
  pub status : SecurityStatus
  pub count : ℕ
  pub last_seen : ℕ

abbrev pub is_same_anomaly : SecurityLog → Anomaly → Bool
is_same_anomaly e a =
    text_eq a.user_name e.user_name
    && event_number a.event == event_number e.event
    && status_number a.status == status_number e.status

abbrev pub new_anomaly : SecurityLog → Anomaly
new_anomaly e = record {
  user_name = e.user_name;
  event = e.event;
  status = e.status;
  count = 1;
  last_seen = e.timestamp;
}

-- a row, in the group of its person, event and status
unfoldable pub add_anomaly : SecurityLog → List Anomaly → List Anomaly
add_anomaly e [] = new_anomaly e ∷ []
add_anomaly e (a ∷ rest) =
    if is_same_anomaly e a
    then record a { count = a.count + 1; last_seen = max a.last_seen e.timestamp } ∷ rest
    else a ∷ add_anomaly e rest

-- `group_by(user_name, event, status)`
unfoldable pub anomalies_of : List SecurityLog → List Anomaly
anomalies_of [] = []
anomalies_of (e ∷ es) = add_anomaly e (anomalies_of es)

-- by count and moment, the largest first
abbrev pub is_ahead : Anomaly → Anomaly → Bool
is_ahead a b = ltb b.count a.count || (a.count == b.count && ltb b.last_seen a.last_seen)

unfoldable pub insert_anomaly : Anomaly → List Anomaly → List Anomaly
insert_anomaly a [] = a ∷ []
insert_anomaly a (b ∷ bs) = if is_ahead b a then b ∷ insert_anomaly a bs else a ∷ b ∷ bs

unfoldable pub sorted_anomalies : List Anomaly → List Anomaly
sorted_anomalies [] = []
sorted_anomalies (a ∷ rest) = insert_anomaly a (sorted_anomalies rest)

-- `security_anomalies`
unfoldable pub security_anomalies : ℕ → Db → Option ℕ → ℕ → List Anomaly
security_anomalies now db school_id n =
    sorted_anomalies (anomalies_of (select (is_alert now (days n) school_id) db.log))

-- the rows that a list of anomalies stands for
pub counted : List Anomaly → ℕ
counted [] = 0
counted (a ∷ rest) = a.count + counted rest

counted-add_anomaly :
    (e : SecurityLog) (rest : List Anomaly) → counted (add_anomaly e rest) ≡ 1 + counted rest
unfolding counted add_anomaly
counted-add_anomaly e [] = refl
counted-add_anomaly e (a ∷ rest) = ground (arith, counted-add_anomaly e rest)

counted-anomalies_of : (es : List SecurityLog) → counted (anomalies_of es) ≡ length es
unfolding counted anomalies_of
counted-anomalies_of [] = refl
counted-anomalies_of (e ∷ es) =
    ground (arith, counted-add_anomaly e (anomalies_of es), counted-anomalies_of es)

counted-insert_anomaly :
    (a : Anomaly) (bs : List Anomaly) → counted (insert_anomaly a bs) ≡ counted (a ∷ bs)
unfolding counted insert_anomaly
counted-insert_anomaly a [] = refl
counted-insert_anomaly a (b ∷ bs) = ground (arith, counted-insert_anomaly a bs)

counted-sorted_anomalies : (bs : List Anomaly) → counted (sorted_anomalies bs) ≡ counted bs
unfolding counted sorted_anomalies
counted-sorted_anomalies [] = refl
counted-sorted_anomalies (b ∷ bs) =
    ground (arith, counted-insert_anomaly b (sorted_anomalies bs), counted-sorted_anomalies bs)

-- The anomalies that are told stand for every alert of the days that are asked for, and for each
-- once.
pub security_anomalies-counted :
    (now : ℕ) (db : Db) (school_id : Option ℕ) (n : ℕ)
    → counted (security_anomalies now db school_id n)
      ≡ count_where (is_alert now (days n) school_id) db.log
unfolding security_anomalies
security_anomalies-counted now db school_id n =
    counted-sorted_anomalies (anomalies_of (select (is_alert now (days n) school_id) db.log))
    ∙ counted-anomalies_of (select (is_alert now (days n) school_id) db.log)
    ∙ count-select (is_alert now (days n) school_id) db.log
