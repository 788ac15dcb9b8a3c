-- ===== src/Vocabulary/Owl.antt =====
-- OWL: `OWL_REAL` and `OWL_RATIONAL` of lib/representation/src/subtypes.rs.
use maplib.Prelude.{String}

abbrev pub real : String
real = "http://www.w3.org/2002/07/owl#real"

abbrev pub rational : String
rational = "http://www.w3.org/2002/07/owl#rational"
