-- ===== src/Helm/Bridge.antt =====
-- pkg/resources/helm/auth_bridge.go: the bridge that hands credentials from live callbacks to a
-- background worker. Times are nanoseconds since Go's zero time, and each call takes the clock's
-- reading. The channel `requests` holds at most one wakeup; `changed` counts its closings.
pub mod Laws
use Prim.Native.Nat.{◌%◌, ◌^◌}
use formae_plugin_kubernetes.Prelude.{
  ℕ, ◌+◌, ◌*◌, String, Bool, true, false, not, ◌&&◌, Option, none, some, ltb, ◌==◌, str_eq,
  if◌then◌else◌,
}
use formae_plugin_kubernetes.Prelude.Errors.{GoError, leaf, redacted, canceled}

abbrev pub second : ℕ
second = 1000000000

pub record Bridge : Type 0 where
  pub window : ℕ
  pub deadline : ℕ
  pub serviced : ℕ
  pub token : String
  pub expiry : ℕ
  pub closed : Option GoError
  pub changed : ℕ
  pub requested : Bool
  pub generation : ℕ
  pub source_generation : ℕ

abbrev pub starved : GoError
starved =
    leaf 10
      "helm credential refresh service starved; no active operation supplied credentials within the polling budget"

abbrev pub invalid_token : GoError
invalid_token = leaf 11 "invalid or expired bearer token"

-- What one turn of `Token`'s loop does: answer, fail, or ask for service and wait until `limit`.
pub data Turn : Type 0 where
  token_of : String → ℕ → Turn
  failed : GoError → Turn
  wait_until : ℕ → Turn

abbrev pub min_time : ℕ → ℕ → ℕ
min_time a b = if ltb a b then a else b

-- `limit` of `Token`: the end of the polling budget, or the action's deadline if that is sooner.
unfoldable pub limit : Bridge → ℕ
limit b = let end = b.serviced + b.window in if ltb b.deadline end then b.deadline else end

-- The turn of a worker whose context has the given error: an ended context comes before everything.
unfoldable pub token_turn : Bridge → Option GoError → ℕ → Bridge × Turn
unfolding limit
token_turn b (some e) now = (b, failed e)
token_turn b none now = elim b.closed [
  | some e ↦ (b, failed e)
  | none ↦
      if not (ltb now (limit b))
      then (b, failed starved)
      else if not (str_eq b.token "") && ltb (now + 10 * second) b.expiry
      then (b, token_of b.token b.expiry)
      else (record b { requested = true }, wait_until (limit b))
]

-- What ends the wait of a turn: the context's end with its error, or a change or the timer.
pub data Wake : Type 0 where
  context_done : GoError → Wake
  woken : Wake

-- A worker that is woken takes another turn, with what its context is by then.
unfoldable pub after_wait : Bridge → Wake → Option GoError → ℕ → Bridge × Turn
unfolding token_turn
after_wait b (context_done e) context now = (b, failed e)
after_wait b woken context now = token_turn b context now

-- A fetched token is refused if it is empty, has no expiry, or ends within the safety margin. The
-- test of the year 9999 is `far`, the first instant of the year 10000.
unfoldable pub usable : ℕ → ℕ → String → ℕ → Bool
usable far now token expiry =
    not (str_eq token "") && not (expiry == 0) && ltb expiry far && ltb (now + 10 * second) expiry

-- The critical section of `Service` before the call of the source: a closed bridge answers with its
-- error; else it takes the bridge's generation, and says whether the source has to drop its cached
-- token first.
pub data Begun : Type 0 where
  shut : GoError → Begun
  fetches : ℕ → Bool → Begun

unfoldable pub service_begin : Bridge → Bridge × Begun
service_begin b = elim b.closed [
  | some e ↦ (b, shut e)
  | none ↦ (
    record b { source_generation = b.generation },
    fetches b.generation (not (b.generation == b.source_generation)),
  )
]

-- `Service` after the source answered for the generation `asked` with a token or an error.
unfoldable pub service_end :
    ℕ → Bridge → ℕ → ℕ → String → ℕ → Option GoError → Bridge × Option GoError
unfolding usable
service_end far b asked now token expiry error = elim b.closed [
  | some e ↦ (b, some e)
  | none ↦ elim error [
    | some e ↦ (b, some (redacted e))
    | none ↦
        if not (usable far now token expiry)
        then (b, some (redacted invalid_token))
        else if not (asked == b.generation)
        then (record b { requested = true }, none)
        else (
          record b {
            token = token;
            expiry = expiry;
            serviced = now;
            requested = false;
            changed = b.changed + 1;
          },
          none,
        )
  ]
]

unfoldable pub invalidate : Bridge → Bridge
invalidate b = record b {
  token = "";
  expiry = 0;
  generation = (b.generation + 1) % 2 ^ 64;
  requested = true;
  changed = b.changed + 1;
}

-- A close with no error stands for a cancelled operation; a closed bridge stays as it is.
unfoldable pub close : Option GoError → Bridge → Bridge
close error b = elim b.closed [
  | some e ↦ b
  | none ↦ record b {
    closed = some (elim error [ none ↦ canceled | some e ↦ e ]);
    token = "";
    expiry = 0;
    changed = b.changed + 1;
  }
]
