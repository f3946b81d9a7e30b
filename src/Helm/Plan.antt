-- ===== src/Helm/Plan.antt =====
-- pkg/resources/helm/release.go: what `submit` does about a release that exists, and inventory.go's
-- `releaseIsPending`. Helm's record of a release has here the fields that these functions read. A
-- map of values is its size and its JSON text, where encoding succeeds; the fingerprint of a
-- request, a hash of its JSON, is a parameter, and so is the clock.
pub mod Submit
pub mod Laws
mod Tests
use formae_plugin_kubernetes.Prelude.{
  ℕ, ◌+◌, ◌-◌, ◌*◌, ◌<◌, String, Bool, true, false, not, ◌&&◌, ◌||◌, Option, none, some, ltb, leb,
  ◌==◌, str_eq, if◌then◌else◌, Map, lookup, ◌≡◌,
}
use formae_plugin_kubernetes.Prelude.{suc}
use formae_plugin_kubernetes.Prelude.Decimal.{ℤ, pos, atoi}
use formae_plugin_kubernetes.Prelude.Text.{trim_suffix, cut_last}
use formae_plugin_kubernetes.Helm.Bridge.{second}
use formae_plugin_kubernetes.Helm.Flight.{Flight}

pub data ReleaseStatus : Type 0 where
  unknown deployed uninstalled superseded failed uninstalling : ReleaseStatus
  pending_install pending_upgrade pending_rollback : ReleaseStatus

-- Helm's `Status.IsPending`.
abbrev pub is_pending : ReleaseStatus → Bool
is_pending pending_install = true
is_pending pending_upgrade = true
is_pending pending_rollback = true
is_pending _ = false

abbrev pub is_deployed : ReleaseStatus → Bool
is_deployed deployed = true
is_deployed _ = false

pub record Info : Type 0 where
  pub status : ReleaseStatus
  pub first_deployed : ℕ
  pub last_deployed : ℕ

-- The metadata of a stored chart. `dependencies` counts those it lists, `loaded` those that storage
-- gave back.
pub record Chart : Type 0 where
  pub name : String
  pub version : String
  pub dependencies : ℕ
  pub loaded : ℕ

-- `json.Marshal` sorts the keys, so equal maps have equal texts; it may fail.
pub record Values : Type 0 where
  pub size : ℕ
  pub encoded : Option String

pub record Release : Type 0 where
  pub version : ℕ
  pub info : Option Info
  pub labels : Map String
  pub chart : Option Chart
  pub config : Values

-- The desired state, with the fields that planning reads.
pub record Wanted : Type 0 where
  pub chart : String
  pub version : String
  pub values : Values

pub data Action : Type 0 where
  install upgrade retry recover blocked foreign rejoin settled : Action

unfoldable pub formae_owns : Release → Bool
formae_owns rel = elim (lookup "formae.dev/managed" rel.labels) [
  | none ↦ false
  | some v ↦ str_eq v "true"
]

unfoldable pub release_is_pending : Release → Bool
release_is_pending rel = elim rel.info [ none ↦ false | some i ↦ is_pending i.status ]

-- The package default for an operation's timeout: 600 seconds.
abbrev pub default_timeout : ℕ
default_timeout = 600 * second

abbrev seconds_of : Option ℤ → ℕ
seconds_of (some (pos (suc n))) = suc n * second
seconds_of _ = default_timeout

unfoldable pub release_timeout : Release → ℕ
unfolding atoi
release_timeout rel = elim (lookup "formae.dev/timeout-seconds" rel.labels) [
  | none ↦ default_timeout
  | some label ↦ seconds_of (atoi label)
]

-- The timestamp from which `stalled` counts; 0 is Go's zero time.
unfoldable pub started_at : Info → ℕ
started_at i = if i.last_deployed == 0 then i.first_deployed else i.last_deployed

-- A live flight suppresses the verdict.
unfoldable pub shields : ℕ → Option Flight → Bool
shields now none = false
shields now (some f) = f.deadline == 0 || ltb now f.deadline

unfoldable pub stalled : ℕ → Release → Option Flight → Bool
unfolding started_at shields release_timeout
stalled now rel flight = elim rel.info [
  | none ↦ false
  | some i ↦
      if shields now flight
      then false
      else if started_at i == 0
      then false
      else ltb (2 * release_timeout rel) (now - started_at i)
]

unfoldable pub abandoned : Release → Option Flight → Bool
unfolding formae_owns
abandoned rel none = formae_owns rel
abandoned rel (some f) = false

unfoldable pub rejoinable : (Wanted → String) → ℕ → Release → Option Flight → Option Wanted → Bool
rejoinable fingerprint now rel none want = false
rejoinable fingerprint now rel (some f) none = false
rejoinable fingerprint now rel (some f) (some w) =
    if not (f.deadline == 0) && ltb f.deadline now
    then false
    else if not (f.revision == rel.version)
    then false
    else not (str_eq (fingerprint w) "") && str_eq (fingerprint w) f.fingerprint

-- The chart's name in a reference: what follows the last slash, a final one left aside.
unfoldable pub chart_ref_name : String → String
unfolding trim_suffix cut_last
chart_ref_name ref = elim (cut_last b'/' (trim_suffix b'/' ref)) [
  | none ↦ trim_suffix b'/' ref
  | some (front, name) ↦ name
]

unfoldable pub stored_chart_usable : Release → Wanted → Bool
unfolding chart_ref_name
stored_chart_usable rel w = elim rel.chart [
  | none ↦ false
  | some c ↦
      if str_eq w.version "" || not (str_eq w.version c.version)
      then false
      else str_eq (chart_ref_name w.chart) c.name
]

unfoldable pub stored_chart_complete : Release → Bool
stored_chart_complete rel = elim rel.chart [
  | none ↦ false
  | some c ↦ c.dependencies == 0 || ltb 0 c.loaded
]

abbrev same_text : Option String → Option String → Bool
same_text (some a) (some b) = str_eq a b
same_text _ _ = false

unfoldable pub values_equal : Values → Values → Bool
values_equal a b = if a.size == 0 && b.size == 0 then true else same_text a.encoded b.encoded

unfoldable pub is_settled : Release → Option Wanted → Bool
unfolding formae_owns stored_chart_usable values_equal
is_settled rel none = false
is_settled rel (some w) = if not (formae_owns rel) then false else elim rel.info [
  | none ↦ false
  | some i ↦
      if not (is_deployed i.status)
      then false
      else if not (stored_chart_usable rel w)
      then false
      else values_equal rel.config w.values
]

-- What the parameters stand for.
pub record Env : Type 0 where
  pub now : ℕ
  pub fingerprint : Wanted → String

unfoldable pub plan_submit :
    Env → Option Release → Bool → Option Flight → Option Wanted → Action × ℕ
unfolding release_is_pending rejoinable abandoned stalled is_settled formae_owns
plan_submit env none is_create flight want = (install, 1)
plan_submit env (some rel) is_create flight want =
    if release_is_pending rel
    then if rejoinable env.fingerprint env.now rel flight want
      then (rejoin, rel.version)
      else if abandoned rel flight
      then (recover, rel.version)
      else if stalled env.now rel flight
      then (blocked, rel.version)
      else (retry, rel.version)
    else if is_settled rel want
    then (settled, rel.version)
    else if is_create && not (formae_owns rel)
    then (foreign, rel.version)
    else (upgrade, rel.version + 1)
