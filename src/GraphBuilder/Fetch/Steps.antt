-- ===== src/GraphBuilder/Fetch/Steps.antt =====
-- src/p2_satellite/graph_builder.py, `fetch_and_build_graph`: which requests are sent, and what they come to.
use p2_ai_knowledge_graph_fo.Base.{
  ℕ, ◌≤◌, ◌<◌, ◌≡◌, ◌⊎◌, inl, inr, ◌++◌, Option, none, some, Text, codes,
}
use p2_ai_knowledge_graph_fo.Retry.{
  Result, raised, returned, Sent, connect_error, timed_out, other_error, response, Tenacity,
}
use p2_ai_knowledge_graph_fo.Retry.Requests.{Sends}
use p2_ai_knowledge_graph_fo.GraphBuilder.{Networkx, Exports}
use p2_ai_knowledge_graph_fo.GraphBuilder.Built.{IsExact}
use p2_ai_knowledge_graph_fo.GraphBuilder.Fetch.{
  FetchError, connection_failed, status_error, other, GetRequest, ai_systems, regulations_catalog,
  jurisdictions, Failure, incomplete, build_error,
}

-- What is worth another try: no connection, no answer in time, or an error of the server.
abbrev pub IsPassing : {B : Type 0} → Sent B → Type 0
IsPassing connect_error = Unit
IsPassing timed_out = Unit
IsPassing other_error = ⊥
IsPassing (response status body) = (500 ≤ status) × (status < 600)

-- What a fetch comes to when its last request meets with this.
abbrev pub ComesTo : {B : Type 0} → Sent B → Result FetchError B → Type 0
ComesTo connect_error o = o ≡ raised connection_failed
ComesTo timed_out o = o ≡ raised connection_failed
ComesTo other_error o = o ≡ raised other
ComesTo (response status body) o =
    ((200 ≤ status) × (status < 300) × (o ≡ returned body))
    ⊎ (((status < 200) ⊎ (300 ≤ status)) × (o ≡ raised (status_error status)))

module _ {W B G : Type 0} (core_base_url core_export_api_key : Text)
    (get : GetRequest → W → W × Sent B) (t : Tenacity W FetchError B) (nx : Networkx G)
    (read : B → B → B → Option Exports) (changed_since : Option Text) where
  -- The request for one export.
  abbrev pub request_for : Text → GetRequest
  request_for path = record {
    url = core_base_url ++ path;
    authorization = codes "Bearer " ++ core_export_api_key;
    changed_since = changed_since;
  }

  -- An export is asked for one to three times, again only after what is worth another try; then the fetch
  -- leaves this world, and comes to what the last request met with.
  abbrev pub Fetches : Text → W → W → Result FetchError B → Type 0
  Fetches path w w' o =
      (k : ℕ) × (s : Sent B) × Sends get t.wait IsPassing (request_for path) k w w' s
      × (k ≤ 3)
      × ((¬ IsPassing s) ⊎ (k ≡ 3))
      × ComesTo s o

  -- What the three payloads come to: the graph of the exports in them, if they can be read.
  abbrev pub Builds : B → B → B → Result Failure G → Type 0
  Builds a r j o =
      ((read a r j ≡ none) × (o ≡ raised build_error))
      ⊎ ((x : Exports) × (g : G) × (read a r j ≡ some x) × IsExact nx x g × (o ≡ returned g))

  abbrev pub Outcome : W → W → Result Failure G → Type 0
  Outcome w w' o =
      ((a r j : B) × (w₁ w₂ : W) × Fetches (codes "/api/v1/patent-exports/p2/ai-systems") w w₁
          (returned a)
        × Fetches (codes "/api/v1/patent-exports/p2/regulations-catalog") w₁ w₂ (returned r)
        × Fetches (codes "/api/v1/patent-exports/p2/jurisdictions") w₂ w' (returned j)
        × Builds a r j o)
      ⊎ ((e : FetchError) × Fetches (codes "/api/v1/patent-exports/p2/ai-systems") w w' (raised e)
          × (o ≡ raised (incomplete (ai_systems e))))
      ⊎ ((e : FetchError) × (a : B) × (w₁ : W) × Fetches
            (codes "/api/v1/patent-exports/p2/ai-systems") w w₁ (returned a)
          × Fetches (codes "/api/v1/patent-exports/p2/regulations-catalog") w₁ w' (raised e)
          × (o ≡ raised (incomplete (regulations_catalog e))))
      ⊎ ((e : FetchError) × (a r : B) × (w₁ w₂ : W) × Fetches
            (codes "/api/v1/patent-exports/p2/ai-systems") w w₁ (returned a)
          × Fetches (codes "/api/v1/patent-exports/p2/regulations-catalog") w₁ w₂ (returned r)
          × Fetches (codes "/api/v1/patent-exports/p2/jurisdictions") w₂ w' (raised e)
          × (o ≡ raised (incomplete (jurisdictions e))))

  abbrev Split : Text → W → W × Result FetchError B → Type 0
  Split path w fetched =
      ((w' : W) × (e : FetchError) × Fetches path w w' (raised e) × (fetched ≡ (w', raised e)))
      ⊎ ((w' : W) × (b : B) × Fetches path w w' (returned b) × (fetched ≡ (w', returned b)))

  split :
      (path : Text) (w w' : W) (o : Result FetchError B) (fetched : W × Result FetchError B)
      → Fetches path w w' o
      → fetched ≡ (w', o)
      → Split path w fetched
  split path w w' (raised e) fetched f h = inl (w', e, f, h)
  split path w w' (returned b) fetched f h = inr (w', b, f, h)
