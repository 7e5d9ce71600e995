-- ===== src/Api/Client.antt =====
-- go/web/frontend/src/api/client.ts. What `fetch` gives is an argument: a network error with its
-- message, or a status with a body that is JSON (a value or `null`) or not.
pub mod Laws
use instace_metric_collector.Common.{
  ℕ, Str, String, codes, show_nat, leb, ltb, ◌==◌, Bool, ◌&&◌, ◌++◌, Option, none, some,
  if◌then◌else◌,
}

pub data Body (A : Type 0) : Type 0 where
  json : Option A → Body A
  malformed : Str → Body A

pub data Fetched (A : Type 0) : Type 0 where
  network_error : Str → Fetched A
  response : ℕ → Body A → Fetched A

-- How a promise settles: with a value, or with an error's message.
pub data Settled (A : Type 0) : Type 0 where
  resolved : A → Settled A
  rejected : Str → Settled A

-- `res.ok`.
abbrev pub is_ok : ℕ → Bool
is_ok status = leb 200 status && ltb status 300

unfoldable pub status_error : Str → ℕ → Str
status_error path status = path ++ codes ": " ++ show_nat status

abbrev parse : {A : Type 0} → Body A → Settled (Option A)
parse (json a) = resolved a
parse (malformed message) = rejected message

unfoldable pub api_get : {A : Type 0} → Str → Fetched A → Settled (Option A)
api_get path (network_error message) = rejected message
api_get path (response status body) =
    if status == 204
    then resolved none
    else if is_ok status
    then parse body
    else rejected (status_error path status)

-- What `apiPut` and `apiPost` do with the answer: a body is read from any success.
unfoldable pub read_answer : {A : Type 0} → Str → Fetched A → Settled (Option A)
read_answer path (network_error message) = rejected message
read_answer path (response status body) =
    if is_ok status then parse body else rejected (status_error path status)

pub record Request : Type 0 where
  pub method : String
  pub path : Str
  pub content_type : Option String
  pub body : Option Str

-- `stringify` is `JSON.stringify`.
module _ {B : Type 0} (stringify : B → Str) where
  unfoldable pub put_request : Str → B → Request
  put_request path body = record {
    method = "PUT";
    path = path;
    content_type = some "application/json";
    body = some (stringify body);
  }

  unfoldable pub post_request : Str → Option B → Request
  post_request path none = record { method = "POST"; path = path; content_type = none; body = none }
  post_request path (some body) = record {
    method = "POST";
    path = path;
    content_type = some "application/json";
    body = some (stringify body);
  }
