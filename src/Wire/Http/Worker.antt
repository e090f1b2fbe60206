-- ===== src/Wire/Http/Worker.antt =====
-- The queue of HttpClient and WorkerLoop, of src/core/http_client.cpp. A callback is named by an element
-- of a type; `calls` records the calls of callbacks, the latest at the end.
use mcx.Prelude.{
  ℕ, zero, suc, ◌≡◌, refl, sym, ap, ◌∙◌, Bool, true, false, Option, none, some, List, [], ◌∷◌, ◌++◌,
  if◌then◌else◌, length, append_nil,
}
use mathlib.Core.List.{append_assoc}
use mcx.Prelude.Text.{Text, codes}
use mcx.Prelude.Decimal.{to_string}
use mcx.Wire.Http.{
  HttpRequest, HttpResponse, Performed, returns, throws, undefined, Network, perform_request,
}

-- The worker is in its loop, behind it, or has left it by an exception that nothing catches, which ends
-- the program; or it has read a status that sscanf is not defined on.
pub data Worker : Type 0 where
  looping ended terminated lost : Worker

pub record PendingRequest (Callback : Type 0) : Type 0 where
  pub request : HttpRequest
  pub callback : Option Callback

pub record HttpClient (Callback : Type 0) : Type 0 where
  pub queue : List (PendingRequest Callback)
  pub running : Bool
  pub worker : Worker
  pub calls : List (Callback × HttpResponse)

module _ {Callback : Type 0} where
  unfoldable pub request : HttpRequest → Option Callback → HttpClient Callback → HttpClient Callback
  request req callback client = record client {
    queue = client.queue ++ (record { request = req; callback = callback } ∷ []);
  }

  unfoldable pub get : Text → Option Callback → HttpClient Callback → HttpClient Callback
  unfolding request
  get url callback client =
      request (record { method = codes "GET"; url = url; headers = []; body = [] }) callback client

  unfoldable pub post : Text → Text → Option Callback → HttpClient Callback → HttpClient Callback
  unfolding request
  post url body callback client =
      request
        (record {
          method = codes "POST";
          url = url;
          headers = (codes "Content-Length", to_string (length body)) ∷ [];
          body = body;
        })
        callback client

  -- The flag of Stop; what else it does is to wait for the worker.
  unfoldable pub stop : HttpClient Callback → HttpClient Callback
  stop client = record client { running = false }

  abbrev pub answered : Option Callback → HttpResponse → List (Callback × HttpResponse)
  answered none response = []
  answered (some callback) response = (callback, response) ∷ []

  -- What follows PerformRequest.
  unfoldable pub after_request :
      Option Callback → Performed → HttpClient Callback → HttpClient Callback
  after_request callback (returns response) client = record client {
    calls = client.calls ++ answered callback response;
  }
  after_request callback throws client = record client { worker = terminated }
  after_request callback undefined client = record client { worker = lost }

  module _ (network : Network) where
    -- One turn of WorkerLoop. The worker waits while the queue is empty.
    unfoldable pub worker_turn : HttpClient Callback → HttpClient Callback
    unfolding after_request
    worker_turn client = elim client.worker [
      | looping ↦
          if client.running
          then elim client.queue [
            | [] ↦ client
            | pending ∷ rest ↦
                after_request pending.callback (perform_request network pending.request)
                  (record client { queue = rest })
          ]
          else record client { worker = ended }
      | ended ↦ client
      | terminated ↦ client
      | lost ↦ client
    ]

    unfoldable pub worker_turns : ℕ → HttpClient Callback → HttpClient Callback
    worker_turns zero client = client
    worker_turns (suc n) client = worker_turns n (worker_turn client)

    -- The requests return those responses.
    abbrev pub Return : List (PendingRequest Callback) → List HttpResponse → Type 0
    Return [] [] = Unit
    Return [] (response ∷ responses) = ⊥
    Return (pending ∷ queue) [] = ⊥
    Return (pending ∷ queue) (response ∷ responses) =
        (perform_request network pending.request ≡ returns response) × Return queue responses

  abbrev pub calls_of :
      List (PendingRequest Callback) → List HttpResponse → List (Callback × HttpResponse)
  calls_of [] responses = []
  calls_of (pending ∷ queue) [] = []
  calls_of (pending ∷ queue) (response ∷ responses) =
      answered pending.callback response ++ calls_of queue responses

  abbrev pub looping_with :
      List (PendingRequest Callback) → List (Callback × HttpResponse) → HttpClient Callback
  looping_with queue calls = record {
    queue = queue;
    running = true;
    worker = looping;
    calls = calls;
  }

  module _ (network : Network) where
    turn_returns :
        (pending : PendingRequest Callback) (queue : List (PendingRequest Callback))
        (calls : List (Callback × HttpResponse)) {response : HttpResponse}
        → perform_request network pending.request ≡ returns response
        → worker_turn network (looping_with (pending ∷ queue) calls)
          ≡ looping_with queue (calls ++ answered pending.callback response)
    unfolding worker_turn after_request
    turn_returns pending queue calls e = rw (worker_turn, e) refl

    turn_throws :
        (pending : PendingRequest Callback) (queue : List (PendingRequest Callback))
        (calls : List (Callback × HttpResponse))
        → perform_request network pending.request ≡ throws
        → worker_turn network (looping_with (pending ∷ queue) calls)
          ≡ record (looping_with queue calls) { worker = terminated }
    unfolding worker_turn after_request
    turn_throws pending queue calls e = rw (worker_turn, e) refl

    terminated_stays :
        (n : ℕ) (queue : List (PendingRequest Callback)) (calls : List (Callback × HttpResponse))
        → worker_turns network n (record (looping_with queue calls) { worker = terminated })
          ≡ record (looping_with queue calls) { worker = terminated }
    unfolding worker_turns worker_turn
    terminated_stays zero queue calls = refl
    terminated_stays (suc n) queue calls = terminated_stays n queue calls

    turns-Return :
        (before after : List (PendingRequest Callback)) (responses : List HttpResponse)
        (calls : List (Callback × HttpResponse))
        → Return network before responses
        → worker_turns network (length before) (looping_with (before ++ after) calls)
          ≡ looping_with after (calls ++ calls_of before responses)
    unfolding worker_turns
    turns-Return [] after [] calls h = ap (looping_with after) (sym (append_nil calls))
    turns-Return [] after (response ∷ responses) calls h = elim h [ ]
    turns-Return (pending ∷ before) after [] calls h = elim h [ ]
    turns-Return (pending ∷ before) after (response ∷ responses) calls h =
        ap (worker_turns network (length before)) (turn_returns pending (before ++ after) calls h.0)
        ∙ turns-Return before after responses (calls ++ answered pending.callback response) h.1
        ∙ ap (looping_with after)
            (append_assoc calls (answered pending.callback response) (calls_of before responses))

    -- The worker answers the requests in the order in which they were made, each by one call of its
    -- callback, if it has one, with its own response, up to the first one on which
    -- std::stoi throws: that one ends the program, and those behind it are never answered, however
    -- many turns follow.
    worker_turns_in_order :
        (n : ℕ) (before after : List (PendingRequest Callback)) (bad : PendingRequest Callback)
        (responses : List HttpResponse)
        → Return network before responses
        → perform_request network bad.request ≡ throws
        → (worker_turns network (length before) (looping_with (before ++ (bad ∷ after)) [])
            ≡ looping_with (bad ∷ after) (calls_of before responses))
          × (worker_turns network (suc n) (looping_with (bad ∷ after) (calls_of before responses))
              ≡ record (looping_with after (calls_of before responses)) { worker = terminated })
    unfolding worker_turns
    worker_turns_in_order n before after bad responses h b = (
      turns-Return before (bad ∷ after) responses [] h,
      ap (worker_turns network n) (turn_throws bad after (calls_of before responses) b)
          ∙ terminated_stays n after (calls_of before responses),
    )
