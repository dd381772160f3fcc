-- ===== src/Access.antt =====
-- core-side-patch/dependencies.py and permissions.py: the scoped API keys of the satellite. (What the
-- file has for users and organisations are stubs that are replaced on merging.)
use p2_ai_knowledge_graph_fo.Base.{
  ◌+◌, Bool, not, ◌&&◌, ◌||◌, [], ◌∷◌, map, Option, none, some, Text, codes, Dict, lookup,
  partition, leb, if◌then◌else◌, ◌==◌, list_eq, nat_eq,
}
use p2_ai_knowledge_graph_fo.Tables.{option_beq}

abbrev pub patent_export_p2_read : Text
patent_export_p2_read = codes "patent_export:p2:read"

abbrev pub patent_ingest_p2_write : Text
patent_ingest_p2_write = codes "patent_ingest:p2:write"

abbrev pub dev_scoped_keys : Dict Text Text
dev_scoped_keys =
    (codes "dev-export-key", patent_export_p2_read)
    ∷ (codes "dev-ingest-key", patent_ingest_p2_write)
    ∷ []

unfoldable pub default_validate_scoped_api_key : Text → Text → Bool
default_validate_scoped_api_key token required_permission =
    option_beq (lookup token dev_scoped_keys) (some required_permission)

-- `str.lower()`, where a capital outside ASCII gives no letter of ASCII.
unfoldable pub lower : Text → Text
lower s = map (λ c. if leb 65 c && leb c 90 then c + 32 else c) s

-- The token of the header; `none` is the 401.
unfoldable pub token_of : Text → Option Text
token_of authorization =
    let (scheme, found, token) = partition 32 authorization in
    if not (lower scheme == codes "bearer") || (token == []) then none else some token

unfoldable pub extract_bearer_token : Option Text → Option Text
extract_bearer_token none = none
extract_bearer_token (some authorization) =
    if authorization == [] then none else token_of authorization

-- What a guard comes to: 401, 403, or the token.
pub data Access : Type 0 where
  unauthorized : Access
  forbidden : Access
  granted : Text → Access

unfoldable pub access_with : (Text → Text → Bool) → Text → Option Text → Access
access_with validate_scoped_api_key permission none = unauthorized
access_with validate_scoped_api_key permission (some token) =
    if validate_scoped_api_key token permission then granted token else forbidden

-- `validate_scoped_api_key` is core's own validator, by default the one above.
unfoldable pub require_patent_export_scope : (Text → Text → Bool) → Option Text → Access
require_patent_export_scope validate_scoped_api_key authorization =
    access_with validate_scoped_api_key patent_export_p2_read (extract_bearer_token authorization)

unfoldable pub require_patent_ingest_scope : (Text → Text → Bool) → Option Text → Access
require_patent_ingest_scope validate_scoped_api_key authorization =
    access_with validate_scoped_api_key patent_ingest_p2_write (extract_bearer_token authorization)
