-- ===== src/Vocabulary/Rdfs.antt =====
-- RDF Schema.
use maplib.Prelude.{String}

abbrev pub literal : String
literal = "http://www.w3.org/2000/01/rdf-schema#Literal"

abbrev pub resource : String
resource = "http://www.w3.org/2000/01/rdf-schema#Resource"

abbrev pub class : String
class = "http://www.w3.org/2000/01/rdf-schema#Class"

abbrev pub datatype : String
datatype = "http://www.w3.org/2000/01/rdf-schema#Datatype"
