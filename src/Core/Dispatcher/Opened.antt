-- ===== src/Core/Dispatcher/Opened.antt =====
-- fs-core/src/lib.rs, `release_for_handle_response`: which answers open a handle.
use fabric_fs.Prelude.{ap}
use fabric_fs.Protocol.Operation.{Operation}
use fabric_fs.Protocol.Messages.Requests.{OpenRequest, CreateRequest, ReleaseRequest}
use fabric_fs.Protocol.Messages.Responses.{OpenResponse, CreateResponse}
use fabric_fs.Prelude.{◌≡◌, refl, sym, ◌∙◌, string_eq, Option, none, some}
use fabric_fs.Protocol.RequestPayload
use fabric_fs.Protocol.RequestPayload.{RequestPayload}
use fabric_fs.Protocol.ResponsePayload
use fabric_fs.Protocol.ResponsePayload.{ResponsePayload, opened_handle, check_limit}
use fabric_fs.Protocol.RequestEnvelope.{RequestEnvelope}
use fabric_fs.Core.Dispatcher.{release_of}

open-request :
    (q : RequestPayload)
    → RequestPayload.operation q ≡ Operation.«open»
    → (asked : OpenRequest) × (q ≡ RequestPayload.«open» asked)
unfolding RequestPayload.operation
open-request (RequestPayload.«open» asked) h = (asked, refl)
open-request (RequestPayload.lookup v) h = absurd (cc)
open-request _ h = absurd (cc)

create-request :
    (q : RequestPayload)
    → RequestPayload.operation q ≡ Operation.create
    → (asked : CreateRequest) × (q ≡ RequestPayload.create asked)
unfolding RequestPayload.operation
create-request (RequestPayload.create asked) h = (asked, refl)
create-request (RequestPayload.lookup v) h = absurd (cc)
create-request _ h = absurd (cc)

-- What has to be released after an answer: the handle that an open or a create got, at the path that
-- it asked for; nothing after any other.
abbrev pub opened_by : RequestPayload → Option ResponsePayload → Option ReleaseRequest
opened_by (RequestPayload.«open» asked) (some (ResponsePayload.«open» answered)) =
    some (record { path = asked.path; handle = answered.handle; flags = 0 })
opened_by (RequestPayload.create asked) (some (ResponsePayload.create answered)) =
    some (record { path = asked.path; handle = answered.handle; flags = 0 })
opened_by _ _ = none

release_of-open :
    (request : RequestEnvelope) (asked : OpenRequest) (answered : OpenResponse)
    → request.payload ≡ RequestPayload.«open» asked
    → release_of request (opened_handle (ResponsePayload.«open» answered))
      ≡ some (record { path = asked.path; handle = answered.handle; flags = 0 })
unfolding opened_handle RequestPayload.path_dto_for_role
release_of-open request asked answered h = rw h refl

release_of-create :
    (request : RequestEnvelope) (asked : CreateRequest) (answered : CreateResponse)
    → request.payload ≡ RequestPayload.create asked
    → release_of request (opened_handle (ResponsePayload.create answered))
      ≡ some (record { path = asked.path; handle = answered.handle; flags = 0 })
unfolding opened_handle RequestPayload.path_dto_for_role
release_of-create request asked answered h = rw h refl

pub opened_by-none : (q : RequestPayload) → opened_by q none ≡ none
opened_by-none (RequestPayload.«open» asked) = refl
opened_by-none (RequestPayload.create asked) = refl
opened_by-none _ = refl

unopened-open :
    (asked : OpenRequest) (p : ResponsePayload)
    → opened_handle p ≡ none
    → opened_by (RequestPayload.«open» asked) (some p) ≡ none
unfolding opened_handle
unopened-open asked (ResponsePayload.«open» v) h = absurd (cc)
unopened-open asked (ResponsePayload.lookup v) h = refl
unopened-open asked _ h = refl

unopened-create :
    (asked : CreateRequest) (p : ResponsePayload)
    → opened_handle p ≡ none
    → opened_by (RequestPayload.create asked) (some p) ≡ none
unfolding opened_handle
unopened-create asked (ResponsePayload.create v) h = absurd (cc)
unopened-create asked (ResponsePayload.lookup v) h = refl
unopened-create asked _ h = refl

unopened-opened_by :
    (q : RequestPayload) (p : ResponsePayload)
    → opened_handle p ≡ none
    → opened_by q (some p) ≡ none
unopened-opened_by (RequestPayload.«open» asked) p h = unopened-open asked p h
unopened-opened_by (RequestPayload.create asked) p h = unopened-create asked p h
unopened-opened_by (RequestPayload.lookup asked) p h = refl
unopened-opened_by _ p h = refl

unopened :
    (request : RequestEnvelope) (p : ResponsePayload)
    → opened_handle p ≡ none
    → release_of request (opened_handle p) ≡ opened_by request.payload (some p)
unopened request p h = rw (h, unopened-opened_by request.payload p h) refl

pub payload-released :
    (request : RequestEnvelope) (p : ResponsePayload)
    → ResponsePayload.operation p ≡ RequestPayload.operation request.payload
    → release_of request (opened_handle p) ≡ opened_by request.payload (some p)
unfolding ResponsePayload.operation
payload-released request (ResponsePayload.«open» v) h =
    let (asked, e) = open-request request.payload (sym h) in
    release_of-open request asked v e
    ∙ ap (λ q. opened_by q (some (ResponsePayload.«open» v))) (sym e)
payload-released request (ResponsePayload.create v) h =
    let (asked, e) = create-request request.payload (sym h) in
    release_of-create request asked v e
    ∙ ap (λ q. opened_by q (some (ResponsePayload.create v))) (sym e)
payload-released request (ResponsePayload.lookup v) h =
    unopened request _ (unfold opened_handle in refl)
payload-released request _ h = unopened request _ (unfold opened_handle in refl)
