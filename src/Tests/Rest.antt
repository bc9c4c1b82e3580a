-- ===== src/Tests/Rest.antt =====
-- Examples on the REST client.
use slurm_manager.Base.{◌≡◌, refl, ℕ, Bool, true, none, some, [], ◌↔◌, ◌⊎◌}
use slurm_manager.Base.Result.{ok}
use slurm_manager.Base.Json.{Value, num, array, object, nil, cons, Fields, end, field}
use slurm_manager.Base.Text.{codes}
use slurm_manager.Rest.{RestClient, body, http_error, handle_response, request}
use slurm_manager.Rest.Requests.{NamesUnknown, http_error_missing, request_authorized}

abbrev rest : RestClient
rest = record {
  url = codes "http://s";
  api_version = codes "v0.0.40";
  current = record {
    rest_url = codes "http://s";
    rest_api_version = codes "v0.0.40";
    jwt = codes "k";
    user = [];
  };
  open_request = λ q. body (codes "{}");
  json_loads = λ s. none;
  json_dumps = λ v. codes "{}";
  is_digit = λ c. true;
  to_str = λ v. codes "1";
  decimal = λ n. codes "404";
}

-- The answer for a purged job.
abbrev purged : Value
purged = object (
    field (codes "errors") (array (cons (object (field (codes "error_number") (num 2017) end)) nil))
      end)

abbrev informed : RestClient
informed = record rest { json_loads = λ s. some purged }

http_error_missing_example :
    (handle_response informed (codes "GET") true (http_error 500 (some (codes "{}"))) ≡ ok end) ↔ (
      ◌≡◌ {A = Bool} true true
      × ◌≡◌ {A = Fields} end end
      × (◌≡◌ {A = ℕ} 500 404
          ⊎ (((◌≡◌ {A = ℕ} 500 400) ⊎ (◌≡◌ {A = ℕ} 500 500)) × NamesUnknown (some purged))))
http_error_missing_example =
    http_error_missing informed (codes "GET") true 500 (some (codes "{}")) end

request_authorized_example :
    request
      (record rest { open_request = rest.open_request })
      (codes "GET")
      (codes "slurm")
      none
      true
    ≡ request rest (codes "GET") (codes "slurm") none true
request_authorized_example =
    request_authorized rest rest.open_request (codes "GET") (codes "slurm") none true (λ q a. refl)
