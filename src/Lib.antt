-- ===== src/Lib.antt =====
-- maplib, a Rust library that builds knowledge graphs from data frames and evaluates SPARQL on
-- them. Modelled is the part of it that reasons about queries without touching data: what the
-- engine does to a query before it is evaluated, and what it finds out about the variables of a
-- query; the index with which the triple store keeps triples from being stored twice; the encodings
-- that stand for the texts of terms in columns; the types of template parameters; and how JSON and
-- XML documents become triples. The evaluation itself works on data frames of an external library.
--
-- How the parts interact: the parser yields a graph pattern of the query algebra; the rewriter
-- (lib/triplestore/src/sparql/rewrite.rs) runs its three passes over it, one of which asks which
-- variables an expression uses. While the rewritten query is evaluated, a context says where in the
-- query the evaluation stands, and the filters and patterns that were passed are turned into
-- pushdowns: for each variable the terms that it can have and a constraint on the types of its
-- nodes. The patterns of a BGP are put in an order that prefers those that are connected to what is
-- known. The constraints are decided by the hierarchy of literal datatypes. The columns of the data
-- frames hold the codes of texts; when two frames meet, the encoding of one is merged into that of
-- the other. A JSON or XML document is walked once, its triples are put into columns by predicate
-- and types, and the columns become the data frames that the triple store is given.
--
-- - Algebra, Algebra.Terms: lib/spargebra/src/algebra.rs and term.rs, the data types of queries.
--   `Expression::In` is `is_in`, the boxes are left out, and a struct-like variant has its fields
--   as arguments in the order of the source, except that a filter has its expression first.
-- - Variables: lib/query_processing/src/find_query_variables.rs,
--   `find_all_used_variables_in_expression` and its companions. Occurrence describes without a set
--   at which places a variable counts, which are fewer than those where one can stand, Membership
--   compares the two.
-- - Rewrite.Pushdown: lib/triplestore/src/sparql/rewrite/rewrite_pushdown.rs, `rewrite_gp_pushdown`
--   and all that it calls; the loops of its arms are functions of their own. Triples and Placement
--   follow the triple patterns and the filters through the pass, Kept says which filters stay,
--   Filters has the loops' lemmas, Dropped and Identity look at patterns without a variable
--   predicate.
-- - Rewrite.LiftExtend: lib/triplestore/src/sparql/rewrite/rewrite_lift_extend.rs.
-- - Rewrite.Cse: lib/triplestore/src/sparql/rewrite/rewrite_cse.rs. Renaming composes renamings,
--   Counts compares the counts with the uses of a variable, Gone says which variables a renaming
--   leaves, Fresh is about one expression, Triples about patterns. Rewrite.Passes:
--   lib/triplestore/src/sparql/rewrite.rs.
-- - TriplesOrdering: lib/triplestore/src/sparql/lazy_graph_patterns/triples_ordering.rs. Cost has
--   the number that the comparison amounts to, Equality is about the derived equality, Greedy says
--   what the order is.
-- - Cats: lib/in_memory/src/lib.rs. Maps has the two maps that both kinds of encoding keep, a key
--   standing for a text by the function `bytes` (the identity for `UncompressedCatMapsInMemory`,
--   `to_bytes` for the compressed texts of Iri), Compressed the prefix map, InMemory the enum
--   `CatMapsInMemory`, Listing what lists texts and codes. Bytes, Codes and Ordered are the texts
--   and the two map types of the standard library; Entries, Inverse, Split, Numbered, Merge,
--   Collect, Compact, Compressed.Lookup and InMemory.New have the theorems.
-- - QueryContext: lib/representation/src/query_context.rs, `PathEntry`, `Context` and
--   `VariableInContext`; Scope for `in_scope`, Rendering for the text that a context carries.
-- - Vocabulary: the names of the datatypes, from oxrdf's vocabulary (Xsd, Rdfs) and subtypes.rs
--   (Owl).
-- - Subtypes: lib/representation/src/subtypes.rs, `is_literal_subtype`. Hierarchy lists the direct
--   subtypes, Table has the arms of the test in a list, Decides compares the two.
-- - NodeTypes: `BaseRDFNodeType` of lib/representation/src/base_rdf_type.rs.
-- - TypeConstraints: lib/query_processing/src/type_constraints.rs. Meaning says what a constraint
--   admits; Lost is about `conjunction_variable_type`.
-- - Pushdowns: lib/query_processing/src/pushdowns.rs. Terms has sets of terms, Bound and Sound what
--   the pushed values mean, Conflict where they are none, Resources the constraints that a BGP
--   adds, Scope which variables an operation touches, Patterns has `add_graph_pattern_pushdowns`,
--   and Complete says when it does not panic.
-- - Storage.Index: lib/triplestore/src/storage/so_index.rs, the struct that its two macros declare
--   for each pair of column types. A data frame is the list of its rows, without nulls; the type of
--   the objects, the type of the keys and the function from a row to its key are parameters of a
--   section, `nonlang_key` and `lang_key` being those of the two macros. Deduplication describes
--   the operations, Stored relates the index to the rows that are stored.
-- - Templates: lib/templates/src/ast.rs and subtypes_ext.rs, the data types of OTTR templates, and
--   Templates.Inference: `infer_template_types`, `lub_update` and `lub` of dataset.rs. Steps,
--   Explained and Fits are about the steps of a run, its errors and the instances that it accepts,
--   OneChange about the run.
-- - SeriesBuilder: lib/representation/src/series_builder.rs, the columns that readers fill. Pairs
--   has `ensure_pair` with what is done through the reference that it returns (`with_pair`), Kept
--   says what is put into a column, Even that the columns of subjects and objects keep step.
-- - FacadeX.Json: lib/triplestore/src/map_json.rs. Tables has `TripleTableBuilder`, Document has
--   `map_json`; Described lists the triples that a document stands for, Pushes and Walk compare
--   them with the map that `process_value` fills, Columns, Batches and Mapped follow them into the
--   data frames; Whole, Entries and Filled have the invariants of the map.
-- - FacadeX.Xml: lib/triplestore/src/map_xml.rs. Opening has `open_element`, Events the loop over
--   the events of the reader and `flush_pred_map`. Columns, Attributes and Safe show that nothing
--   panics, Scope and Elements what the end of an element restores, Leaks what an empty element
--   leaves.
-- - Prelude: the standard library as the code uses it. A HashSet is a list that is asked for
--   membership only, a HashMap an association list; the order in which one of them iterates is that
--   of the list, and no theorem depends on it; it decides which fresh name a variable gets in
--   Rewrite.Cse, and elsewhere the loops write each key into a map of its own.
-- - Examples: the theorems at concrete queries.
--
-- Conventions: a function that mutates its argument returns the new value; a panic (`panic!`,
-- `unreachable!`) is `none`, or `panicked` where the code also returns errors; the path of a
-- document and the stacks of an XML document are kept with their last entry first; a `Vec` grows at
-- its end. Loops are structural recursions on the pattern, the expression or the list; only the
-- loop of the triples ordering, which removes one candidate in each run, has fuel, the number of
-- the patterns, and is proved to end with it. A u32 wraps around at 2^32 where the code adds to it,
-- and a theorem that needs it says that it does not. A text of an encoding is the list of its
-- bytes, a BTreeMap the list of its entries in their order, and an Arc is what it points to. Names
-- are texts. The u16 of a `PathEntry` is a natural number that is only compared and printed.
--
-- Literal subtypes follow the code's table, which has xsd:unsignedLong under xsd:positiveInteger.
--
-- Parameters: the parsers of JSON and XML, `Uuid::new_v5`, `NamedNode::new`, the tables of Unicode
-- and the making of a data frame of two columns, as the records `Host` of FacadeX.Json and
-- FacadeX.Xml and their arguments, with what is documented of them in `Documented` and `Frames`;
-- how the libraries read the texts of literals (`from_str`, chrono, rust_decimal), as the record
-- `Values` of SeriesBuilder; `in_scope_variables`, the set that `on_in_scope_variable` of the
-- spargebra fork reports; `show_u16`, the standard library's decimal form; `new_v4`, the names that
-- the uuid library makes, by the number of the call; `show_blank`, the text of a blank node in
-- oxrdf; for the soundness of pushed values a solution and the truth of expressions for it, with
-- what the code relies on as a record of hypotheses, in which equality is described for IRIs only.
--
-- Not modelled: what the triple store does with the triples of a document (`add_triples_vec`) and
-- the series that columns become; the evaluation of patterns and expressions; the segments of the
-- triple store, their compaction, and the dispatch of the index on column types; the record batches
-- of the encodings, and the encodings by datatype over them; the repetition of the inference over
-- all templates (`infer_types`), the parsing and printing of templates, and their expansion; the
-- parser; input and output; the Python bindings.
pub mod Prelude
pub mod Algebra
pub mod Variables
pub mod Vocabulary
pub mod Subtypes
pub mod Templates
pub mod TriplesOrdering
pub mod Rewrite
pub mod QueryContext
pub mod SeriesBuilder
pub mod FacadeX
pub mod NodeTypes
pub mod TypeConstraints
pub mod Pushdowns
pub mod Storage
pub mod Cats
pub mod Examples
