-- ===== src/Samples.antt =====
-- Small instances of the parameters of the development, on which its theorems are tried: a comparison
-- of bytes, a reader of JSON that knows objects with one member `type`, header maps as lists, and an
-- environment in which the first provider does not answer.
use muxvia.Prelude.{
  ℕ, suc, true, Option, none, some, List, [], ◌∷◌, ◌++◌, bytes_eq, ◌==◌, if◌then◌else◌, take,
}
use muxvia.Domain.{openai_responses, openai_bearer}
use muxvia.Text.{Text, codes}
use muxvia.Json.{JsonLib}
use muxvia.Http.{HttpLib}
use muxvia.Auth.{ConstantTime}
use muxvia.Priming.{finish, chunk, at_once}
use muxvia.Commitment.{UpstreamResponse}
use muxvia.Observation.{ObservationLib}
use muxvia.RoutePlan.{
  RoutePlanMemberSnapshot, ActivatedRoutePlanSnapshot, prepared, native, RouteEnv,
}

abbrev pub plain_eq : ConstantTime
plain_eq = record { ct_eq = bytes_eq }

-- A text is an object whose `type` it is.
abbrev pub typed_json : JsonLib
typed_json = record {
  Value = Text;
  from_str = some;
  from_slice = some;
  get = λ value key. if bytes_eq key (codes "type") then some value else none;
  as_str = some;
  as_u64 = λ value. none;
  is_object = λ value. true;
}

abbrev pub values_of : List (Text × Text) → Text → List Text
values_of [] name = []
values_of ((k, v) ∷ rest) name =
    if bytes_eq k name then v ∷ values_of rest name else values_of rest name

abbrev pub without : List (Text × Text) → Text → List (Text × Text)
without [] name = []
without ((k, v) ∷ rest) name =
    if bytes_eq k name then without rest name else (k, v) ∷ without rest name

abbrev pub listed_http : HttpLib
listed_http = record {
  HeaderMap = List (Text × Text);
  HeaderValue = Text;
  new_map = [];
  iter = λ m. m;
  get_all = values_of;
  append = λ m name value. m ++ (name, value) ∷ [];
  insert = λ m name value. (name, value) ∷ without m name;
  name_from_bytes = some;
  value_from_str = some;
  to_str = some;
  as_bytes = λ v. v;
  gunzip = λ limit bytes. some (take limit bytes);
}

abbrev pub json_response : UpstreamResponse listed_http
json_response = record {
  status = 200;
  headers = (codes "content-type", codes "application/json") ∷ [];
  body = chunk at_once (codes "response") (finish at_once);
}

abbrev pub member : ℕ → RoutePlanMemberSnapshot
member id = record {
  provider_id = id;
  name = codes "p";
  base_url = codes "https://p.example";
  model = codes "m";
  provider_credential = none;
  protocol = openai_responses;
  authentication = openai_bearer;
  subscription_binding = none;
}

abbrev pub two_members : ActivatedRoutePlanSnapshot
two_members = record { id = 9; epoch = 1; members = member 1 ∷ member 2 ∷ [] }

abbrev answer : ℕ → ℕ → Option (UpstreamResponse listed_http) × ℕ
answer request w = if request == 1 then (none, w) else (some json_response, w)

abbrev pub quiet_env : RouteEnv listed_http
quiet_env = record {
  World = ℕ;
  Request = ℕ;
  now = λ w. (w, suc w);
  build = λ m w. (prepared m.provider_id native, w);
  send = answer;
  others = λ w health. health;
}

abbrev pub unzipped : ObservationLib
unzipped = record {
  gunzip_prefix = λ limit bytes. (take limit bytes, true);
  string_to_vec = λ text. some ((b'"' ∷ text) ++ b'"' ∷ []);
}
