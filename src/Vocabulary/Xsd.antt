-- ===== src/Vocabulary/Xsd.antt =====
-- XML Schema datatypes.
use maplib.Prelude.{String}

abbrev pub decimal : String
decimal = "http://www.w3.org/2001/XMLSchema#decimal"

abbrev pub double : String
double = "http://www.w3.org/2001/XMLSchema#double"

abbrev pub float : String
float = "http://www.w3.org/2001/XMLSchema#float"

abbrev pub integer : String
integer = "http://www.w3.org/2001/XMLSchema#integer"

abbrev pub long : String
long = "http://www.w3.org/2001/XMLSchema#long"

abbrev pub int : String
int = "http://www.w3.org/2001/XMLSchema#int"

abbrev pub short : String
short = "http://www.w3.org/2001/XMLSchema#short"

abbrev pub byte : String
byte = "http://www.w3.org/2001/XMLSchema#byte"

abbrev pub non_negative_integer : String
non_negative_integer = "http://www.w3.org/2001/XMLSchema#nonNegativeInteger"

abbrev pub positive_integer : String
positive_integer = "http://www.w3.org/2001/XMLSchema#positiveInteger"

abbrev pub unsigned_long : String
unsigned_long = "http://www.w3.org/2001/XMLSchema#unsignedLong"

abbrev pub unsigned_int : String
unsigned_int = "http://www.w3.org/2001/XMLSchema#unsignedInt"

abbrev pub unsigned_short : String
unsigned_short = "http://www.w3.org/2001/XMLSchema#unsignedShort"

abbrev pub unsigned_byte : String
unsigned_byte = "http://www.w3.org/2001/XMLSchema#unsignedByte"

abbrev pub non_positive_integer : String
non_positive_integer = "http://www.w3.org/2001/XMLSchema#nonPositiveInteger"

abbrev pub negative_integer : String
negative_integer = "http://www.w3.org/2001/XMLSchema#negativeInteger"

abbrev pub duration : String
duration = "http://www.w3.org/2001/XMLSchema#duration"

abbrev pub year_month_duration : String
year_month_duration = "http://www.w3.org/2001/XMLSchema#yearMonthDuration"

abbrev pub day_time_duration : String
day_time_duration = "http://www.w3.org/2001/XMLSchema#dayTimeDuration"

abbrev pub date_time : String
date_time = "http://www.w3.org/2001/XMLSchema#dateTime"

abbrev pub date_time_stamp : String
date_time_stamp = "http://www.w3.org/2001/XMLSchema#dateTimeStamp"

abbrev pub boolean : String
boolean = "http://www.w3.org/2001/XMLSchema#boolean"

abbrev pub string : String
string = "http://www.w3.org/2001/XMLSchema#string"

abbrev pub date : String
date = "http://www.w3.org/2001/XMLSchema#date"
