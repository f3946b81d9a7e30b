-- ===== src/Prelude/Errors.antt =====
-- Go's errors as values. A leaf is a sentinel or an error made by `errors.New`: two leaves are the
-- same error when their identities agree. `fmt.Errorf("…%w", e)` wraps, and `errors.Is` walks the
-- chain of wrapped errors. `redacted` is `auth.RedactError` (pkg/auth/cache.go): it hides the text
-- of its cause and keeps what `errors.Is` says of it, but for the sentinel `ErrTransient`, with
-- which nothing here is compared. `op_error` and `dns_error` are `*net.OpError`, with the answer of
-- its `Timeout`, and `*net.DNSError`.
use Prim.Native.Nat.{ℕ}
use Prim.Native.String.{String, ◌++◌}
use mathlib.Core.Bool.{Bool, ◌&&◌, ◌||◌, true, false}
use mathlib.Core.Option.{Option, none, some}
use formae_plugin_kubernetes.Prelude.Tests.{◌==◌, str_eq}

pub data GoError : Type 0 where
  leaf : ℕ → String → GoError
  wrap : String → GoError → GoError
  redacted : GoError → GoError
  op_error : Bool → String → GoError → GoError
  dns_error : String → GoError

-- `err == target`, for the targets that the program compares with: a wrapped error is a fresh
-- pointer, which the model tells from others by its text and its cause.
unfoldable pub same_error : GoError → GoError → Bool
same_error (leaf n s) (leaf m t) = n == m
same_error (wrap s e) (leaf m t) = false
same_error (redacted d) (redacted e) = same_error d e
same_error (wrap s d) (wrap t e) = str_eq s t && same_error d e
same_error (op_error t a d) (op_error u b e) = str_eq a b && same_error d e
same_error (dns_error a) (dns_error b) = str_eq a b
same_error _ _ = false

-- errors.Is
unfoldable pub error_is : GoError → GoError → Bool
unfolding same_error
error_is (leaf n s) target = same_error (leaf n s) target
error_is (wrap s e) target = same_error (wrap s e) target || error_is e target
error_is (redacted e) target = same_error (redacted e) target || error_is e target
error_is (op_error t s e) target = same_error (op_error t s e) target || error_is e target
error_is (dns_error s) target = same_error (dns_error s) target

-- err.Error()
unfoldable pub error_text : GoError → String
error_text (leaf n s) = s
error_text (wrap s e) = s ++ error_text e
error_text (redacted e) = "authentication request failed"
error_text (op_error t s e) = s ++ error_text e
error_text (dns_error s) = s

-- errors.As with a `*net.OpError`: what `Timeout` answers for the first one in the chain.
unfoldable pub as_op_error : GoError → Option Bool
as_op_error (wrap s e) = as_op_error e
as_op_error (op_error timeout s e) = some timeout
as_op_error _ = none

-- errors.As with a `*net.DNSError`.
unfoldable pub as_dns_error : GoError → Bool
as_dns_error (wrap s e) = as_dns_error e
as_dns_error (op_error timeout s e) = as_dns_error e
as_dns_error (dns_error s) = true
as_dns_error _ = false

-- context.Canceled and context.DeadlineExceeded.
abbrev pub canceled : GoError
canceled = leaf 1 "context canceled"

abbrev pub deadline_exceeded : GoError
deadline_exceeded = leaf 2 "context deadline exceeded"

-- os.ErrDeadlineExceeded and syscall.ECONNREFUSED.
abbrev pub os_deadline_exceeded : GoError
os_deadline_exceeded = leaf 3 "i/o timeout"

abbrev pub connection_refused : GoError
connection_refused = leaf 4 "connection refused"
