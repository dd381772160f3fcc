-- ===== src/GraphBuilder/Fetch.antt =====
-- src/p2_satellite/graph_builder.py: the three fetches before the build. httpx sends a request, and the
-- answer holds the parsed body; a body of a success that is no JSON counts as another error.
pub mod Steps
use p2_ai_knowledge_graph_fo.Base.{
  ℕ, ◌≡◌, refl, ◌⊎◌, inl, inr, Bool, true, false, ◌&&◌, ◌++◌, Option, none, some, ◌>>=◌, Text,
  codes, leb, ltb, if◌then◌else◌,
}
use p2_ai_knowledge_graph_fo.GraphBuilder.{Networkx, Exports, build_graph}
use p2_ai_knowledge_graph_fo.Retry.{
  Result, raised, returned, Sent, connect_error, timed_out, other_error, response, Tenacity,
}

-- The exceptions of a fetch.
pub data FetchError : Type 0 where
  connection_failed : FetchError
  status_error : ℕ → FetchError
  other : FetchError

unfoldable pub is_retryable_http_error : FetchError → Bool
is_retryable_http_error connection_failed = true
is_retryable_http_error (status_error status) = leb 500 status && ltb status 600
is_retryable_http_error other = false

pub record GetRequest : Type 0 where
  pub url : Text
  pub authorization : Text
  pub changed_since : Option Text

-- `client.get` and `raise_for_status`, which raises for a status that is no success.
unfoldable pub checked : {B : Type 0} → Sent B → Result FetchError B
checked connect_error = raised connection_failed
checked timed_out = raised connection_failed
checked other_error = raised other
checked (response status body) =
    if leb 200 status && ltb status 300 then returned body else raised (status_error status)

module _ {W B : Type 0} (core_base_url core_export_api_key : Text)
    (get : GetRequest → W → W × Sent B) (t : Tenacity W FetchError B) where
  unfoldable pub do_request : Text → Option Text → W → W × Result FetchError B
  do_request path changed_since w =
      let request : GetRequest = record {
        url = core_base_url ++ path;
        authorization = codes "Bearer " ++ core_export_api_key;
        changed_since = changed_since;
      } in
      let (w', sent) = get request w in (w', checked sent)

  unfoldable pub get_json : Text → Option Text → W → W × Result FetchError B
  get_json path changed_since w =
      t.retry is_retryable_http_error 3 (do_request path changed_since) w

  unfoldable pub fetch_ai_systems : Option Text → W → W × Result FetchError B
  fetch_ai_systems = get_json (codes "/api/v1/patent-exports/p2/ai-systems")

  unfoldable pub fetch_regulations_catalog : Option Text → W → W × Result FetchError B
  fetch_regulations_catalog = get_json (codes "/api/v1/patent-exports/p2/regulations-catalog")

  unfoldable pub fetch_jurisdictions : Option Text → W → W × Result FetchError B
  fetch_jurisdictions = get_json (codes "/api/v1/patent-exports/p2/jurisdictions")

-- The step that `GraphBuildIncompleteError` names.
pub data Incomplete : Type 0 where
  ai_systems : FetchError → Incomplete
  regulations_catalog : FetchError → Incomplete
  jurisdictions : FetchError → Incomplete

-- `GraphBuildIncompleteError`, or what `build_graph` raises on payloads that lack what it reads.
pub data Failure : Type 0 where
  incomplete : Incomplete → Failure
  build_error : Failure

-- The next step runs where this one returned; `step` names this one in the error.
unfoldable pub then_fetch :
    {W A B : Type 0}
    → W × Result FetchError A
    → (FetchError → Incomplete)
    → (A → W → W × Result Failure B)
    → W × Result Failure B
then_fetch (w, raised e) step next = (w, raised (incomplete (step e)))
then_fetch (w, returned a) step next = next a w

-- The three steps and the build.
unfoldable pub in_steps :
    {W B G : Type 0}
    → (W → W × Result FetchError B)
    → (W → W × Result FetchError B)
    → (W → W × Result FetchError B)
    → (B → B → B → Result Failure G)
    → W
    → W × Result Failure G
in_steps fetch₁ fetch₂ fetch₃ build w = then_fetch (fetch₁ w) ai_systems (λ a w₁.
    then_fetch (fetch₂ w₁) regulations_catalog
      (λ r w₂. then_fetch (fetch₃ w₂) jurisdictions (λ j w₃. (w₃, build a r j))))

unfoldable pub built : {G : Type 0} → Option G → Result Failure G
built none = raised build_error
built (some g) = returned g

-- `build_graph` of the three payloads: `read` looks up what the build reads of them, and is `none` where
-- a key is missing or its value has another shape.
unfoldable pub build_payloads :
    {B G : Type 0} → Networkx G → (B → B → B → Option Exports) → B → B → B → Result Failure G
build_payloads nx read a r j = built (read a r j >>= build_graph nx)

module _ {W B G : Type 0} (core_base_url core_export_api_key : Text)
    (get : GetRequest → W → W × Sent B) (t : Tenacity W FetchError B) (nx : Networkx G)
    (read : B → B → B → Option Exports) where
  unfoldable pub fetch_and_build_graph : Option Text → W → W × Result Failure G
  fetch_and_build_graph changed_since =
      in_steps (fetch_ai_systems core_base_url core_export_api_key get t changed_since)
        (fetch_regulations_catalog core_base_url core_export_api_key get t changed_since)
        (fetch_jurisdictions core_base_url core_export_api_key get t changed_since)
        (build_payloads nx read)
