-- ===== src/Validation.antt =====
-- core-side-patch/validation.py: the two checks on a submitted derivation.
pub mod Laws
use p2_ai_knowledge_graph_fo.Base.{
  Bool, not, ◌&&◌, List, ◌++◌, Text, contains, to_set, set_eq, keep_if, list_eq, nat_eq,
}

-- The two lists of a payload, or of a derivation that it is compared with.
pub record DerivedIds : Type 0 where
  pub derived_obligations : List Text
  pub derived_controls : List Text

-- The active ids of each of the two node types.
pub record Catalog : Type 0 where
  pub obligation : List Text
  pub control_type : List Text

unfoldable pub validate_obligation_control_ids : DerivedIds → Catalog → List Text
validate_obligation_control_ids payload catalog =
    keep_if (λ i. not (contains i (to_set catalog.obligation))) payload.derived_obligations
    ++ keep_if (λ i. not (contains i (to_set catalog.control_type))) payload.derived_controls

unfoldable pub compare_derivation : DerivedIds → DerivedIds → Bool
compare_derivation submitted reference_derived =
    set_eq (to_set submitted.derived_obligations) (to_set reference_derived.derived_obligations)
    && set_eq (to_set submitted.derived_controls) (to_set reference_derived.derived_controls)
