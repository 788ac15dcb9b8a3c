-- ===== src/Examples/Templates.antt =====
-- A template with two parameters that an instance of another one types.
use maplib.Prelude.{false, List, [], ◌∷◌, none, some, String}
use maplib.Algebra.{Variable}
use maplib.Templates.{Argument, PType, Parameter, StottrTerm, Template}
use maplib.Templates.Inference.{infer_template_types}
use maplib.Templates.OneChange.{Inferred, infer_template_types_lem}
use maplib.Vocabulary.Rdfs

abbrev parameter : Variable → PType → Parameter
parameter v t = record {
  optional = false;
  non_blank = false;
  ptype = some t;
  name = v;
  default_value = none;
}

abbrev untyped_parameter : Variable → Parameter
untyped_parameter v = record {
  optional = false;
  non_blank = false;
  ptype = none;
  name = v;
  default_value = none;
}

abbrev statement : Template
statement = record {
  signature = record {
    iri = "statement";
    parameter_list =
        parameter "s" (PType.basic Rdfs.class) ∷ parameter "o" (PType.basic Rdfs.resource) ∷ [];
    annotation_list = none;
  };
  pattern_list = [];
}

abbrev argument : Variable → Argument
argument v = record { list_expand = false; term = StottrTerm.variable v }

abbrev fact : Template
fact = record {
  signature = record {
    iri = "fact";
    parameter_list = untyped_parameter "x" ∷ untyped_parameter "y" ∷ [];
    annotation_list = none;
  };
  pattern_list =
      record {
        list_expander = none;
        template_iri = "statement";
        argument_list = argument "x" ∷ argument "y" ∷ [];
      }
      ∷ [];
}

abbrev known : List (String × Template)
known = ("statement", statement) ∷ []

infer_template_types_lem_example : Inferred known fact (infer_template_types known fact)
infer_template_types_lem_example = infer_template_types_lem known fact
