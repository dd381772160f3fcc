-- ===== src/IngestClient.antt =====
-- src/p2_satellite/ingest_client.py: what the satellite pushes to core, with its hashes and retries.
-- httpx's post and sha256 of the canonical JSON are parameters; a response's body stands for its JSON.
pub mod Outcome
use p2_ai_knowledge_graph_fo.Base.{
  ℕ, Bool, true, false, not, ◌&&◌, List, [], ◌∷◌, ◌++◌, map, Text, codes, contains, leb, ltb,
  if◌then◌else◌, list_eq, nat_eq,
}
use p2_ai_knowledge_graph_fo.Traversal.{Derivation}
use p2_ai_knowledge_graph_fo.GraphBuilder.Structure.{Structure, NodeStructure, EdgeStructure}
use p2_ai_knowledge_graph_fo.Retry.{
  Result, raised, returned, Sent, connect_error, timed_out, other_error, response, Tenacity,
}

-- The settings that the module reads, and the two digests: of the four fields in the hash of a derivation,
-- and of a structure's nodes and edges.
pub record Settings : Type 0 where
  pub core_base_url : Text
  pub core_ingest_api_key : Text
  pub sha256_of_derivation : Text → List Text → List Text → Text → Text
  pub sha256_of_structure : List NodeStructure → List EdgeStructure → Text

pub data IngestError (B : Type 0) : Type 0 where
  transient_ingest_error : IngestError B
  permanent_ingest_error : ℕ → B → IngestError B
  value_error : IngestError B
  other : IngestError B

-- A derivation with the two fields that are added to it.
pub record PushedDerivation : Type 0 where
  pub derivation : Derivation
  pub trigger_reason : Text
  pub derivation_hash : Text

pub data Body : Type 0 where
  one : PushedDerivation → Body
  batch : List PushedDerivation → Body
  structure : Structure → Text → Body

pub record PostRequest : Type 0 where
  pub url : Text
  pub body : Body
  pub headers : List (Text × Text)

unfoldable pub is_transient : {B : Type 0} → IngestError B → Bool
is_transient transient_ingest_error = true
is_transient (permanent_ingest_error status body) = false
is_transient value_error = false
is_transient other = false

-- What one try of `_post_with_retry` makes of what was sent.
unfoldable pub answered : {B : Type 0} → Sent B → Result (IngestError B) B
answered connect_error = raised transient_ingest_error
answered timed_out = raised transient_ingest_error
answered other_error = raised other
answered (response status body) =
    if leb 500 status
    then raised transient_ingest_error
    else if leb 400 status && ltb status 500
    then raised (permanent_ingest_error status body)
    else returned body

unfoldable pub compute_derivation_hash : Settings → Derivation → Text
compute_derivation_hash settings d =
    settings.sha256_of_derivation d.ai_system_id d.derived_obligations d.derived_controls
      d.methodology_version

unfoldable pub compute_structure_hash : Settings → Structure → Text
compute_structure_hash settings s = settings.sha256_of_structure s.nodes s.edges

abbrev pub trigger_reasons : List Text
trigger_reasons = codes "event" ∷ codes "scheduled" ∷ []

unfoldable pub pushed : Settings → Text → Derivation → PushedDerivation
pushed settings trigger_reason d = record {
  derivation = d;
  trigger_reason = trigger_reason;
  derivation_hash = compute_derivation_hash settings d;
}

unfoldable pub authorization : Settings → Text × Text
authorization settings = (codes "Authorization", codes "Bearer " ++ settings.core_ingest_api_key)

abbrev pub json_content : Text × Text
json_content = (codes "Content-Type", codes "application/json")

unfoldable pub derivation_request : Settings → Text → Derivation → PostRequest
derivation_request settings trigger_reason d = record {
  url = settings.core_base_url ++ codes "/api/v1/patent-ingest/p2/obligation-derivation";
  body = one (pushed settings trigger_reason d);
  headers =
      authorization settings
      ∷ (codes "Idempotency-Key", compute_derivation_hash settings d)
      ∷ json_content
      ∷ [];
}

unfoldable pub batch_request : Settings → Text → List Derivation → PostRequest
batch_request settings trigger_reason derivations = record {
  url = settings.core_base_url ++ codes "/api/v1/patent-ingest/p2/obligation-derivations/batch";
  body = batch (map (pushed settings trigger_reason) derivations);
  headers = authorization settings ∷ json_content ∷ [];
}

unfoldable pub structure_request : Settings → Structure → PostRequest
structure_request settings s = record {
  url = settings.core_base_url ++ codes "/api/v1/patent-ingest/p2/graph-structure";
  body = structure s (compute_structure_hash settings s);
  headers =
      authorization settings
      ∷ (codes "Idempotency-Key", compute_structure_hash settings s)
      ∷ json_content
      ∷ [];
}

module _ {W B : Type 0} (settings : Settings) (post : PostRequest → W → W × Sent B)
    (t : Tenacity W (IngestError B) B) where
  -- One try: the world after it, and what it comes to.
  unfoldable pub post_once : PostRequest → W → W × Result (IngestError B) B
  post_once request w = let (w', sent) = post request w in (w', answered sent)

  unfoldable pub post_with_retry : PostRequest → W → W × Result (IngestError B) B
  post_with_retry request w = t.retry is_transient 3 (post_once request) w

  unfoldable pub push_derivation : Derivation → Text → W → W × Result (IngestError B) B
  push_derivation d trigger_reason w =
      if not (contains trigger_reason trigger_reasons)
      then (w, raised value_error)
      else post_with_retry (derivation_request settings trigger_reason d) w

  -- `no_results` is `{"results": []}`.
  unfoldable pub push_derivations_batch :
      B → List Derivation → Text → W → W × Result (IngestError B) B
  push_derivations_batch no_results derivations trigger_reason w =
      if not (contains trigger_reason trigger_reasons)
      then (w, raised value_error)
      else elim derivations [
        | [] ↦ (w, returned no_results)
        | d ∷ ds ↦ post_with_retry (batch_request settings trigger_reason (d ∷ ds)) w
      ]

  unfoldable pub push_graph_structure : Structure → W → W × Result (IngestError B) B
  push_graph_structure s w = post_with_retry (structure_request settings s) w
