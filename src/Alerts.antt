-- ===== src/Alerts.antt =====
-- backend/app/services/alerts.py: the checker that compares readings with the thresholds of the
-- user. `holds` is the comparison of two floats by an operator; the set of triggered ids is a list
-- without order.
pub mod Verdicts
pub mod Sets
pub mod Reachable
mod Tests
use Prim.Native.String.{String}
use text.Mathlib.Text.{◌==◌}
use kanfei.Prelude.{
  ℕ, Bool, true, false, not, ◌&&◌, ◌||◌, Option, none, some, List, [], ◌∷◌, ◌++◌, if◌then◌else◌,
}

-- The nested dictionary of a reading. `other` is a value that is neither a number nor a dictionary,
-- None among them.
mutual
  pub data Reading (V : Type 0) : Type 0 where
    number : V → Reading V
    other : Reading V
    dict : Entries V → Reading V

  pub data Entries (V : Type 0) : Type 0 where
    no_entries : Entries V
    entry : String → Reading V → Entries V → Entries V

-- The keys of OPERATORS.
pub data Operator : Type 0 where
  ge le gt lt : Operator

-- An entry that is missing is none, and so is an operator that OPERATORS does not have. `sensor` is
-- "" when it is missing, and `enabled` is true.
pub record Threshold (V : Type 0) : Type 0 where
  pub id : String
  pub label : Option String
  pub sensor : String
  pub operator : Option Operator
  pub value : Option V
  pub enabled : Bool

pub record AlertEvent (V : Type 0) : Type 0 where
  pub id : String
  pub label : String
  pub sensor : String
  pub value : V
  pub threshold : V
  pub operator : Operator

pub record ClearedEvent : Type 0 where
  pub id : String
  pub label : String

-- What `check` returns.
pub record Report (V : Type 0) : Type 0 where
  pub triggered : List (AlertEvent V)
  pub cleared : List ClearedEvent

pub record AlertChecker (V : Type 0) : Type 0 where
  pub thresholds : List (Threshold V)
  pub triggered : List String

-- `k in s`, `s.add(k)`, `s.discard(k)` and `s & t`
unfoldable pub has : String → List String → Bool
has k [] = false
has k (j ∷ s) = (k == j) || has k s

unfoldable pub add : String → List String → List String
add k s = if has k s then s else k ∷ s

unfoldable pub discard : String → List String → List String
discard k [] = []
discard k (j ∷ s) = let rest = discard k s in if k == j then rest else j ∷ rest

unfoldable pub intersection : List String → List String → List String
intersection [] t = []
intersection (j ∷ s) t = let rest = intersection s t in if has j t then j ∷ rest else rest

-- The last part of the loop's body, for a threshold that was passed over, exceeded or not exceeded.
unfoldable pub apply_verdict : Option Bool → String → List String → List String
unfolding add discard
apply_verdict none k s = s
apply_verdict (some true) k s = add k s
apply_verdict (some false) k s = discard k s

-- SENSOR_PATHS.get(sensor)
pub sensor_path : String → Option (List String)
sensor_path sensor =
    if sensor == "outside_temp"
    then some ("temperature" ∷ "outside" ∷ "value" ∷ [])
    else if sensor == "inside_temp"
    then some ("temperature" ∷ "inside" ∷ "value" ∷ [])
    else if sensor == "wind_speed"
    then some ("wind" ∷ "speed" ∷ "value" ∷ [])
    else if sensor == "barometer"
    then some ("barometer" ∷ "value" ∷ [])
    else if sensor == "outside_humidity"
    then some ("humidity" ∷ "outside" ∷ "value" ∷ [])
    else if sensor == "rain_rate"
    then some ("rain" ∷ "rate" ∷ "value" ∷ [])
    else none

infixl 5 ◌>>=◌
abbrev ◌>>=◌ : {A B : Type 0} → Option A → (A → Option B) → Option B
none >>= f = none
some a >>= f = f a

module _ {V : Type 0} where
  -- `obj.get(key)`; the first entry is the one that counts.
  unfoldable pub get : String → Entries V → Reading V
  get k no_entries = other
  get k (entry j v rest) = let later = get k rest in if k == j then v else later

  pub extract : Reading V → List String → Option V
  extract (number v) [] = some v
  extract other [] = none
  extract (dict d) [] = none
  extract (dict d) (k ∷ path) = extract (get k d) path
  extract (number v) (k ∷ path) = none
  extract other (k ∷ path) = none

  abbrev pub ids : List (Threshold V) → List String
  ids [] = []
  ids (t ∷ ts) = t.id ∷ ids ts

  abbrev pub only_enabled : List (Threshold V) → List (Threshold V)
  only_enabled [] = []
  only_enabled (t ∷ ts) = let rest = only_enabled ts in if t.enabled then t ∷ rest else rest

  -- `t.get("label", tid)`
  abbrev pub label_of : Threshold V → String
  label_of t = elim t.label [ none ↦ t.id | some label ↦ label ]

  abbrev pub fresh : AlertChecker V
  fresh = record { thresholds = []; triggered = [] }

  unfoldable pub load_thresholds : List (Threshold V) → AlertChecker V → AlertChecker V
  unfolding intersection
  load_thresholds thresholds c =
      let active = only_enabled thresholds in
      record { thresholds = active; triggered = intersection c.triggered (ids active) }

  -- The body of the loop up to the comparison: none is a `continue`.
  unfoldable pub alert_event : Reading V → Threshold V → Option (AlertEvent V)
  unfolding sensor_path extract
  alert_event reading t = do
    path ← sensor_path t.sensor
    current_value ← extract reading path
    operator ← t.operator
    threshold_value ← t.value
    some (record {
      id = t.id;
      label = label_of t;
      sensor = t.sensor;
      value = current_value;
      threshold = threshold_value;
      operator = operator;
    })

module _ {V : Type 0} (holds : Operator → V → V → Bool) where
  -- Whether the reading exceeds the threshold, for a threshold that is not passed over.
  unfoldable pub verdict : Reading V → Threshold V → Option Bool
  unfolding alert_event
  verdict reading t = do
    event ← alert_event reading t
    some (holds event.operator event.value event.threshold)

  -- The set after one threshold.
  unfoldable pub update : Reading V → Threshold V → List String → List String
  update reading t triggered = apply_verdict (verdict reading t) t.id triggered

  -- What one threshold adds to the two lists that `check` returns.
  unfoldable pub triggered_events : Reading V → Threshold V → List (AlertEvent V)
  triggered_events reading t = elim (alert_event reading t) [
    | none ↦ []
    | some event ↦ if holds event.operator event.value event.threshold then event ∷ [] else []
  ]

  unfoldable pub cleared_events : Reading V → Threshold V → List String → List ClearedEvent
  cleared_events reading t triggered = elim (verdict reading t) [
    | none ↦ []
    | some exceeds ↦
        if exceeds || not (has t.id triggered)
        then []
        else record { id = t.id; label = label_of t } ∷ []
  ]

  -- The loop of `check` over the thresholds that are left.
  unfoldable pub check_loop : Reading V → List (Threshold V) → List String → Report V × List String
  check_loop reading [] triggered = (record { triggered = []; cleared = [] }, triggered)
  check_loop reading (t ∷ ts) triggered =
      let (later, final) = check_loop reading ts (update reading t triggered) in
      (
        record {
          triggered = triggered_events reading t ++ later.triggered;
          cleared = cleared_events reading t triggered ++ later.cleared;
        },
        final,
      )

  unfoldable pub check : Reading V → AlertChecker V → Report V × AlertChecker V
  unfolding check_loop update triggered_events cleared_events
  check reading c =
      let (report, final) = check_loop reading c.thresholds c.triggered in
      (report, record c { triggered = final })
