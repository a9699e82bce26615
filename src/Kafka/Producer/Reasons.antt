-- ===== src/Kafka/Producer/Reasons.antt =====
-- What kind a failed publish reports, told from all the reasons that its callback was given.
use offset_explorer_oxide.Common.{
  String, ◌≡◌, Bool, false, ◌||◌, Option, none, some, List, [], ◌∷◌, arith, if◌then◌else◌,
}
use offset_explorer_oxide.Core.Auth.{is_auth_failure_reason}
use offset_explorer_oxide.Core.Errors.{authentication}
use offset_explorer_oxide.Kafka.Auth.{KafkaError, code_says_auth, reason_says_auth, is_auth_failure}
use offset_explorer_oxide.Kafka.Producer.{
  ProducerErrorContext, no_errors, or_else, failure_reason, error, error_each, kind_of_code,
  classify_produce_error,
}

abbrev pub last_of : List String → Option String
last_of [] = none
last_of (why ∷ later) = or_else (last_of later) (some why)

module _ (to_lowercase : String → String) where
  abbrev pub first_auth : List String → Option String
  first_auth [] = none
  first_auth (why ∷ later) =
      if is_auth_failure_reason to_lowercase why then some why else first_auth later

  abbrev pub some_auth : List String → Bool
  some_auth [] = false
  some_auth (why ∷ later) = is_auth_failure_reason to_lowercase why || some_auth later

  auth_error-error_each :
      (errors : ProducerErrorContext) (whys : List String)
      → (error_each to_lowercase errors whys).auth_error
        ≡ or_else errors.auth_error (first_auth whys)
  auth_error-error_each errors [] = ground arith
  auth_error-error_each errors (why ∷ later) =
      ground (arith, auth_error-error_each (error to_lowercase errors why) later)

  last_error-error_each :
      (errors : ProducerErrorContext) (whys : List String)
      → (error_each to_lowercase errors whys).last_error ≡ or_else (last_of whys) errors.last_error
  last_error-error_each errors [] = ground arith
  last_error-error_each errors (why ∷ later) =
      ground (arith, last_error-error_each (error to_lowercase errors why) later)

  failure_reason-error_each :
      (whys : List String)
      → failure_reason (error_each to_lowercase no_errors whys)
        ≡ or_else (first_auth whys) (last_of whys)
  failure_reason-error_each whys =
      ground (arith, auth_error-error_each no_errors whys, last_error-error_each no_errors whys)

  reason_says_auth-some_auth :
      (whys : List String)
      → reason_says_auth to_lowercase (or_else (first_auth whys) (last_of whys)) ≡ some_auth whys
  reason_says_auth-some_auth [] = ground arith
  reason_says_auth-some_auth (why ∷ later) = ground (arith, reason_says_auth-some_auth later)

  -- A rejected send is reported as an authentication failure exactly when its code says so, or any
  -- of the reasons that the callback was given during the publish speaks of authentication, whatever
  -- came after it, or the error's own text does; otherwise its kind is that of its code.
  pub classify_produce_error-error_each :
      (e : KafkaError) (whys : List String)
      → classify_produce_error to_lowercase e
          (failure_reason (error_each to_lowercase no_errors whys))
        ≡ (if code_says_auth e.rdkafka_error_code
              || some_auth whys
              || is_auth_failure_reason to_lowercase e.to_string
            then authentication
            else kind_of_code e.rdkafka_error_code)
  unfolding classify_produce_error is_auth_failure
  classify_produce_error-error_each e whys =
      ground (arith, failure_reason-error_each whys, reason_says_auth-some_auth whys)
