-- ===== src/Core/Tests.antt =====
-- The theorems about the dispatcher at a concrete service.
use fabric_fs.Core.Dispatcher.Opened.{opened_by}
use fabric_fs.Prelude.{◌≡◌, ◌≤◌, refl, true, false, some, ok, length, bytes}
use fabric_fs.Protocol.Messages.Responses.{ReadResponse}
use fabric_fs.Protocol.ResponsePayload.{ResponsePayload}
use fabric_fs.Protocol.RequestEnvelope
use fabric_fs.Protocol.RequestEnvelope.{RequestEnvelope}
use fabric_fs.Protocol.ResponseEnvelope
use fabric_fs.Protocol.ResponseEnvelope.{ResponseEnvelope}
use fabric_fs.Core.Dispatcher.{dispatch, release_for_handle_response}
use fabric_fs.Core.Invalidating.{no_sequences, next_of}
use fabric_fs.Core.Invalidating.Counting.{Counted}
use fabric_fs.Core.Dispatcher.Answering.{dispatch-valid, dispatch-answers, dispatch-Counted}
use fabric_fs.Core.Dispatcher.Releasing.{release_for_handle_response-opened_by, dispatch-read}
use fabric_fs.Core.Example.{
  program, one_directory, counting_dispatcher, at_start, mkdir_request, open_request, read_request,
  metadata_of,
}

abbrev made : ResponseEnvelope
made = (dispatch counting_dispatcher 1 at_start mkdir_request (metadata_of mkdir_request)).1

abbrev opened : ResponseEnvelope
opened = (dispatch counting_dispatcher 1 at_start open_request (metadata_of open_request)).1

-- The directory is made, and the next number of the namespace is 2.
made_succeeds :
    (made.is_success ≡ true)
    × (next_of
          (dispatch counting_dispatcher 1 at_start mkdir_request
            (metadata_of mkdir_request)).0.sequences
          "home"
        ≡ 2)
unfolding program
made_succeeds = (refl, refl)

-- Another namespace in the metadata is refused, and nothing is counted.
other_namespace :
    (dispatch counting_dispatcher 1 at_start mkdir_request
      (record (metadata_of mkdir_request) { namespace = "other" })).1.is_success
    ≡ false
unfolding program
other_namespace = refl

mkdir_valid : RequestEnvelope.validate mkdir_request ≡ ok tt
unfolding program
mkdir_valid = refl

open_valid : RequestEnvelope.validate open_request ≡ ok tt
unfolding program
open_valid = refl

dispatch-valid_example : ResponseEnvelope.validate made ≡ ok tt
dispatch-valid_example =
    dispatch-valid counting_dispatcher 1 at_start mkdir_request (metadata_of mkdir_request)

dispatch-answers_example : ResponseEnvelope.validate_for_request made mkdir_request ≡ ok tt
dispatch-answers_example =
    dispatch-answers counting_dispatcher 1 at_start mkdir_request (metadata_of mkdir_request)
      mkdir_valid

dispatch-Counted_example :
    Counted mkdir_request.namespace mkdir_request.request_id no_sequences
      (dispatch counting_dispatcher 1 at_start mkdir_request
        (metadata_of mkdir_request)).0.sequences
      made.invalidations
dispatch-Counted_example =
    dispatch-Counted counting_dispatcher 1 at_start mkdir_request (metadata_of mkdir_request)

opened_answers : ResponseEnvelope.validate_for_request opened open_request ≡ ok tt
unfolding program
opened_answers = refl

abbrev three_bytes : ReadResponse
three_bytes = record { content = bytes "abc" }

read_succeeds :
    (dispatch counting_dispatcher 1 at_start read_request (metadata_of read_request)).1.is_success
    ≡ true
unfolding program
read_succeeds = refl

read_three :
    (dispatch counting_dispatcher 1 at_start read_request (metadata_of read_request)).1.payload
    ≡ some (ResponsePayload.read three_bytes)
unfolding program
read_three = refl

dispatch-read_example : length three_bytes.content ≤ counting_dispatcher.limits.max_read_bytes
dispatch-read_example =
    dispatch-read counting_dispatcher 1 at_start read_request (metadata_of read_request)
      (record { path = some one_directory; handle = 7; offset = 0; size = 10 }) three_bytes refl
      read_succeeds read_three

-- The handle 7, at the path that the open asked for.
opened_seven :
    opened_by open_request.payload opened.payload
    ≡ some (record { path = some one_directory; handle = 7; flags = 0 })
unfolding program
opened_seven = refl

release_for_handle_response-opened_by_example :
    release_for_handle_response open_request opened ≡ opened_by open_request.payload opened.payload
release_for_handle_response-opened_by_example =
    release_for_handle_response-opened_by open_request opened opened_answers
