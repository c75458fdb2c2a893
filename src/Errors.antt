-- ===== src/Errors.antt =====
-- Thrown values and the messages made of them (lib/error.ts and
-- MemoEditor/services/errorService.ts).
use Prim.Native.String
use kube_memos_eks.Base.{
  if◌then◌else◌, truthy, truthy_string, nullish, StorageError, security_error, quota_exceeded,
  String, Option, none, some,
}

-- What can be thrown: an `Error`, an object that is none, a text, or anything else. An `Error` and an
-- object may have the key `details`, with a text or `undefined`; an object may have a `message`.
pub data Thrown : Type 0 where
  an_error : String → Option (Option String) → Thrown
  an_object : Option String → Option (Option String) → Thrown
  a_string : String → Thrown
  anything : Thrown

-- `getErrorMessage` of lib/error.ts; its default fallback is "Unknown error".
unfoldable pub get_error_message : Thrown → Option String → String
get_error_message (an_error message _) fallback = message
get_error_message (a_string s) fallback = s
get_error_message (an_object (some message) _) fallback = message
get_error_message (an_object none _) fallback = nullish fallback "Unknown error"
get_error_message anything fallback = nullish fallback "Unknown error"

-- `options` of `handleError` without its callback, which the callers' models run.
pub record HandleOptions : Type 0 where
  pub context : Option String
  pub fallback_message : Option String

-- The message that `handleError` gives to the toast.
unfoldable pub handle_error_message : Thrown → HandleOptions → String
unfolding get_error_message
handle_error_message e o =
    if truthy_string o.context
    then String.◌++◌ (String.◌++◌ (nullish o.context "") ": ")
        (get_error_message e o.fallback_message)
    else get_error_message e o.fallback_message

abbrev or_default : Option String → String
or_default none = "An error occurred"
or_default (some s) = if truthy s then s else "An error occurred"

-- `errorService.getErrorMessage`
unfoldable pub service_error_message : Thrown → String
service_error_message (an_error _ (some details)) = or_default details
service_error_message (an_object _ (some details)) = or_default details
service_error_message (an_error message none) = message
service_error_message (an_object _ none) = "An unknown error occurred"
service_error_message (a_string _) = "An unknown error occurred"
service_error_message anything = "An unknown error occurred"

-- The exception of a storage call is a `DOMException`; its message is the browser's, and the model
-- has its name there.
abbrev pub storage_thrown : StorageError → Thrown
storage_thrown security_error = an_error "SecurityError" none
storage_thrown quota_exceeded = an_error "QuotaExceededError" none
