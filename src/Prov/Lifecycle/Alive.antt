-- ===== src/Prov/Lifecycle/Alive.antt =====
-- lifecycle.go: `Read` and `Status` never show an object as alive that is being deleted.
use formae_plugin_kubernetes.Prelude.{
  String, ◌≡◌, refl, ◌⊎◌, inl, inr, Bool, true, false, not, Option, none, some, str_eq,
  Option-cases, Bool-cases, arith, ap, ◌∙◌, List, [], ◌∷◌,
}
use mathlib.Core.Path.{sym}
use formae_plugin_kubernetes.Json.{
  Json, Fields, null, bool, num, str, arr, obj, get, set, remove, object_at, has,
}
use formae_plugin_kubernetes.Json.Laws.{get-set, get-remove}
use formae_plugin_kubernetes.Resource.{ErrorCode, ProgressResult, Wrapped, Operation, check_status}
use formae_plugin_kubernetes.Prov.Lifecycle.{
  Request, ReadResult, Outcome, panicked, returned, Provisioner, Host, guarded,
  clear_status_message_unless_failure, is_terminating, strip_deletion_timestamp, timestamp_of,
  timestamp_of_metadata, timestamp_field, strip_json, strip_fields,
}
use formae_plugin_kubernetes.Prov.Lifecycle.Wrap.{
  wrap, wrap_read, wrap_status, after_read, after_status, status_result,
}
use formae_plugin_kubernetes.Prov.Lifecycle.Safe.{each_progress}

-- The bytes that the stripped object encodes to, and that the host can decode.
abbrev Stripped : Host → String → Type 0
Stripped h out =
    (fs : Fields) × (meta : Fields) × (h.encode
        (set "metadata" (obj (remove "deletionTimestamp" meta)) fs)
      ≡ some out)

strip_fields-cases :
    (h : Host) (properties : String) (fs : Fields)
    → (strip_fields h properties fs ≡ properties) ⊎ Stripped h (strip_fields h properties fs)
strip_fields-cases h properties fs = elim (Option-cases (object_at "metadata" fs)) [
  | inl e ↦ inl (ground arith)
  | inr (meta, e) ↦ elim (Bool-cases (has "deletionTimestamp" meta)) [
    | inr absent ↦ inl (ground arith)
    | inl present ↦
        elim (Option-cases (h.encode (set "metadata" (obj (remove "deletionTimestamp" meta)) fs))) [
          | inl failed ↦ inl (ground arith)
          | inr (text, done) ↦ inr (fs, meta, ground arith)
        ]
  ]
]

strip_json-cases :
    (h : Host) (properties : String) (o : Option Json)
    → (strip_json h properties o ≡ properties) ⊎ Stripped h (strip_json h properties o)
strip_json-cases h properties none = inl refl
strip_json-cases h properties (some (obj fs)) = strip_fields-cases h properties fs
strip_json-cases h properties (some null) = inl refl
strip_json-cases h properties (some (bool b)) = inl refl
strip_json-cases h properties (some (num s n)) = inl refl
strip_json-cases h properties (some (str s)) = inl refl
strip_json-cases h properties (some (arr xs)) = inl refl

strip-cases :
    (h : Host) (properties : String)
    → (strip_deletion_timestamp h properties ≡ properties)
      ⊎ Stripped h (strip_deletion_timestamp h properties)
unfolding strip_deletion_timestamp
strip-cases h properties = elim (Bool-cases (str_eq properties "")) [
  | inl e ↦ inl (ground arith)
  | inr e ↦ rw e (strip_json-cases h properties (h.decode properties))
]

-- The stripped object no longer says that it is being deleted.
timestamp-removed :
    (fs meta : Fields)
    → timestamp_of (obj (set "metadata" (obj (remove "deletionTimestamp" meta)) fs)) ≡ some false
unfolding timestamp_of timestamp_of_metadata timestamp_field
timestamp-removed fs meta =
    rw (get-set "metadata" "metadata", get-remove "deletionTimestamp" "deletionTimestamp") refl

-- What a decoded object holds at a path of keys, but for the digits of numbers and the items of lists.
pub data Outline : Type 0 where
  absent nothing number list object : Outline
  flag : Bool → Outline
  text_of : String → Outline

unfoldable pub outline : Option Json → Outline
outline none = absent
outline (some null) = nothing
outline (some (bool b)) = flag b
outline (some (num s n)) = number
outline (some (str s)) = text_of s
outline (some (arr xs)) = list
outline (some (obj fs)) = object

unfoldable pub peek : List String → Option Json → Option Json
peek [] found = found
peek (k ∷ ks) (some (obj fs)) = peek ks (get k fs)
peek (k ∷ ks) _ = none

-- What encoding/json promises of an object that it encodes: the text decodes to an object that holds
-- the same at every path. The order of the keys may change, and a key that the list repeats is lost.
abbrev pub RoundTrips : Host → Type 0
RoundTrips h =
    (fs : Fields) (text : String)
    → h.encode fs ≡ some text
    → (back : Fields) × (h.decode text ≡ some (obj back))
      × ((path : List String)
          → outline (peek path (some (obj back))) ≡ outline (peek path (some (obj fs))))

-- The deletion timestamp, read off the outlines of the metadata and of the field in it.
abbrev stamp_of : Outline → Option Bool
stamp_of absent = some false
stamp_of nothing = some false
stamp_of (text_of s) = some true
stamp_of _ = none

abbrev stamp_in : Outline → Outline → Option Bool
stamp_in absent inner = some false
stamp_in nothing inner = some false
stamp_in object inner = stamp_of inner
stamp_in _ inner = none

timestamp-field : (o : Option Json) → timestamp_field o ≡ stamp_of (outline o)
unfolding timestamp_field outline
timestamp-field none = refl
timestamp-field (some null) = refl
timestamp-field (some (bool b)) = refl
timestamp-field (some (num s n)) = refl
timestamp-field (some (str s)) = refl
timestamp-field (some (arr xs)) = refl
timestamp-field (some (obj fs)) = refl

timestamp-metadata :
    (o : Option Json)
    → timestamp_of_metadata o ≡ stamp_in (outline o) (outline (peek ("deletionTimestamp" ∷ []) o))
unfolding timestamp_of_metadata peek outline
timestamp-metadata none = refl
timestamp-metadata (some null) = refl
timestamp-metadata (some (bool b)) = refl
timestamp-metadata (some (num s n)) = refl
timestamp-metadata (some (str s)) = refl
timestamp-metadata (some (arr xs)) = refl
timestamp-metadata (some (obj fs)) = timestamp-field (get "deletionTimestamp" fs)

-- Two objects with the same outlines are both being deleted, or neither is.
timestamp-same :
    (fs back : Fields)
    → ((path : List String)
        → outline (peek path (some (obj back))) ≡ outline (peek path (some (obj fs))))
    → timestamp_of (obj back) ≡ timestamp_of (obj fs)
unfolding timestamp_of peek
timestamp-same fs back same =
    timestamp-metadata (get "metadata" back)
    ∙ (ap (λ o. stamp_in o (outline (peek ("deletionTimestamp" ∷ []) (get "metadata" back))))
          (same ("metadata" ∷ []))
        ∙ (ap (stamp_in (outline (get "metadata" fs)))
              (same ("metadata" ∷ "deletionTimestamp" ∷ []))
            ∙ sym (timestamp-metadata (get "metadata" fs))))

decoded-alive :
    (h : Host) (text : String) (v : Json)
    → h.decode text ≡ some v
    → timestamp_of v ≡ some false
    → is_terminating h text ≡ false
unfolding is_terminating
decoded-alive h text v decoded alive = ground arith

-- Stripping keeps an object alive, where encoded objects decode to the same ones.
pub strip-alive :
    (h : Host) (properties : String)
    → RoundTrips h
    → is_terminating h properties ≡ false
    → is_terminating h (strip_deletion_timestamp h properties) ≡ false
strip-alive h properties law alive = elim (strip-cases h properties) [
  | inl e ↦ ap (is_terminating h) e ∙ alive
  | inr (fs, meta, e) ↦
      let stripped = set "metadata" (obj (remove "deletionTimestamp" meta)) fs in
      let (back, decoded, same) = law stripped (strip_deletion_timestamp h properties) e in
      decoded-alive h (strip_deletion_timestamp h properties) (obj back) decoded
        (timestamp-same stripped back same ∙ timestamp-removed fs meta)
]

-- Whether an answer either carries an error code or shows an object that is not being deleted.
abbrev pub is_alive : Host → Option ErrorCode → String → Bool
is_alive h none properties = not (is_terminating h properties)
is_alive h (some code) properties = true

abbrev pub shows_alive : Host → Outcome ReadResult → Bool
shows_alive h (returned (some result) error) = is_alive h result.error_code result.properties
shows_alive h _ = true

abbrev pub shows_alive_progress : Host → ProgressResult → Bool
shows_alive_progress h p = is_alive h p.error_code p.properties

after_read-alive :
    {W L : Type 0} (h : Host) (inner : Provisioner W L) (req : Option Request)
    (o : Outcome ReadResult)
    → RoundTrips h
    → shows_alive h (after_read h inner req o) ≡ true
unfolding after_read
after_read-alive h inner req (panicked r) law = refl
after_read-alive h inner req (returned result (some e)) law = ground arith
after_read-alive h inner req (returned none none) law = refl
after_read-alive h inner req (returned (some result) none) law =
    ground (arith, Option-cases result.error_code, strip-alive h result.properties law)

status_result-alive :
    {W L : Type 0} (h : Host) (inner : Provisioner W L) (req : Option Request) (p : ProgressResult)
    → RoundTrips h
    → shows_alive_progress h (status_result h inner req p) ≡ true
status_result-alive h inner req p law =
    ground (arith, Option-cases p.error_code, strip-alive h p.properties law)

-- Where an encoded object decodes to one that holds the same at every path: a read that answers without an error code never
-- carries properties with a deletion timestamp.
pub read-alive :
    {W L : Type 0} (h : Host) (inner : Provisioner W L) (req : Option Request) (w : W)
    → RoundTrips h
    → shows_alive h ((wrap h inner).on_read req w).1 ≡ true
unfolding wrap wrap_read
read-alive h inner req w law = after_read-alive h inner req (inner.on_read req w).1 law

guarded-alive :
    (h : Host) (op : Operation) (o : Outcome Wrapped)
    → each_progress (shows_alive_progress h) o ≡ true
    → each_progress (shows_alive_progress h) (guarded h op o) ≡ true
unfolding guarded clear_status_message_unless_failure
guarded-alive h op (panicked r) alive = refl
guarded-alive h op (returned none error) alive = refl
guarded-alive h op (returned (some w) error) alive = ground (arith, Option-cases w.progress_result)

after_status-alive :
    {W L : Type 0} (h : Host) (inner : Provisioner W L) (req : Option Request) (o : Outcome Wrapped)
    → RoundTrips h
    → each_progress (shows_alive_progress h) (after_status h inner req o) ≡ true
unfolding after_status
after_status-alive h inner req (panicked r) law = refl
after_status-alive h inner req (returned result (some e)) law = ground arith
after_status-alive h inner req (returned none none) law = refl
after_status-alive h inner req (returned (some w) none) law =
    elim (Option-cases w.progress_result) [
      | inl e ↦ ground arith
      | inr (p, e) ↦ ground (arith, status_result-alive h inner req p law)
    ]

-- Where an encoded object decodes to one that holds the same at every path: a status that answers with progress and without an
-- error code never carries properties with a deletion timestamp.
pub status-alive :
    {W L : Type 0} (h : Host) (inner : Provisioner W L) (req : Option Request) (w : W)
    → RoundTrips h
    → each_progress (shows_alive_progress h) ((wrap h inner).on_status req w).1 ≡ true
unfolding wrap wrap_status
status-alive h inner req w law =
    guarded-alive h check_status (after_status h inner req (inner.on_status req w).1)
      (after_status-alive h inner req (inner.on_status req w).1 law)
