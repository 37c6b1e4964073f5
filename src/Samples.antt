-- ===== src/Samples.antt =====
-- A small instance of the JSON parameter, for runs of the definitions.
use equill.Base.{String, [], ◌∷◌, ◌==◌, none, some, string_eq, eq_iff, if◌then◌else◌}
use equill.Json.{Json}

-- values are strings, and the pointer "/key" reads the whole value
abbrev pub text : Json
text = record {
  Value = String;
  beq = λ a b. a == b;
  beq_iff = eq_iff;
  pointer = λ v p. if p == "/key" then some v else none;
  to_string = λ v. v;
  to_string_injective = λ a b e. e;
  is_null = λ v. v == "null";
  as_array = λ v. if v == "set" then some ("lane" ∷ "backend" ∷ []) else none;
  as_str = λ v. some v;
}
