-- ===== src/Subtypes/Hierarchy.antt =====
-- The hierarchy of literal datatypes as the code lays it out, one edge for each direct subtype, and
-- the relation that these edges generate.
use maplib.Prelude.{◌≡◌, refl, sym, subst, true, false, ◌==◌, arith, eq_iff, eq-true}
use maplib.Algebra.{NamedNode}
use maplib.Vocabulary.Xsd
use maplib.Vocabulary.Rdfs
use maplib.Vocabulary.Owl

-- `s` is a direct subtype of `t`
pub data Direct : NamedNode → NamedNode → Type 0 where
  rational : Direct Owl.rational Owl.real
  decimal : Direct Xsd.decimal Owl.rational
  integer : Direct Xsd.integer Xsd.decimal
  float : Direct Xsd.float Xsd.double
  long : Direct Xsd.long Xsd.integer
  non_negative_integer : Direct Xsd.non_negative_integer Xsd.integer
  non_positive_integer : Direct Xsd.non_positive_integer Xsd.integer
  int : Direct Xsd.int Xsd.long
  short : Direct Xsd.short Xsd.int
  byte : Direct Xsd.byte Xsd.short
  positive_integer : Direct Xsd.positive_integer Xsd.non_negative_integer
  unsigned_long : Direct Xsd.unsigned_long Xsd.positive_integer
  unsigned_int : Direct Xsd.unsigned_int Xsd.unsigned_long
  unsigned_short : Direct Xsd.unsigned_short Xsd.unsigned_int
  unsigned_byte : Direct Xsd.unsigned_byte Xsd.unsigned_short
  negative_integer : Direct Xsd.negative_integer Xsd.non_positive_integer
  year_month_duration : Direct Xsd.year_month_duration Xsd.duration
  day_time_duration : Direct Xsd.day_time_duration Xsd.duration
  date_time_stamp : Direct Xsd.date_time_stamp Xsd.date_time

-- `Reaches t s`: `s` is `t`, or reaches it by direct subtypes; every datatype reaches rdfs:Literal.
pub data Reaches (t : NamedNode) : NamedNode → Type 0 where
  same : Reaches t t
  top : {s : NamedNode} → t ≡ Rdfs.literal → Reaches t s
  up : {s u : NamedNode} → Direct s u → Reaches t u → Reaches t s

direct_low : {s t : NamedNode} → Direct s t → (s == Rdfs.literal) ≡ false
direct_low Direct.rational = refl
direct_low Direct.decimal = refl
direct_low Direct.integer = refl
direct_low Direct.float = refl
direct_low Direct.long = refl
direct_low Direct.non_negative_integer = refl
direct_low Direct.non_positive_integer = refl
direct_low Direct.int = refl
direct_low Direct.short = refl
direct_low Direct.byte = refl
direct_low Direct.positive_integer = refl
direct_low Direct.unsigned_long = refl
direct_low Direct.unsigned_int = refl
direct_low Direct.unsigned_short = refl
direct_low Direct.unsigned_byte = refl
direct_low Direct.negative_integer = refl
direct_low Direct.year_month_duration = refl
direct_low Direct.day_time_duration = refl
direct_low Direct.date_time_stamp = refl

-- an edge above what is reached
pub climb : {t k s : NamedNode} → Direct t k → Reaches t s → Reaches k s
climb d Reaches.same = Reaches.up d Reaches.same
climb {t = t} d (Reaches.top e) = absurd (ground (arith, direct_low d, eq_iff t Rdfs.literal))
climb d (Reaches.up c r) = Reaches.up c (climb d r)

pub leaf : {a k : NamedNode} (s : NamedNode) → Direct a k → (s == a) ≡ true → Reaches k s
leaf {a} {k} s d h = subst (λ u. Reaches k u) (sym (eq-true s a h)) (Reaches.up d Reaches.same)
