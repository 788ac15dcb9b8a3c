-- ===== src/NodeTypes.antt =====
-- The types of RDF nodes: `BaseRDFNodeType` of lib/representation/src/base_rdf_type.rs.
use maplib.Algebra.{NamedNode, Term}

pub data BaseRdfNodeType : Type 0 where
  iri blank_node : BaseRdfNodeType
  literal : NamedNode → BaseRdfNodeType
  no_type : BaseRdfNodeType

-- `BaseRDFNodeType::from_term`
unfoldable pub from_term : Term → BaseRdfNodeType
from_term (Term.named_node n) = BaseRdfNodeType.iri
from_term (Term.blank_node b) = BaseRdfNodeType.blank_node
from_term (Term.literal l) = BaseRdfNodeType.literal l.datatype
