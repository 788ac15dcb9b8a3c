-- ===== src/Vocabulary.antt =====
-- The IRIs of the vocabularies that the RDF library (oxrdf::vocab) names, by their W3C texts.
pub mod Xsd
pub mod Rdfs
pub mod Owl
