-- ===== src/Filter/Parse.antt =====
-- src/filter/mod.rs: the parsing of a flag, and the limit of a filtered scan.
use equill.Base.{
  ℕ, String, Bool, true, false, ◌&&◌, ◌||◌, Option, none, some, List, [], ◌∷◌, ◌==◌, string_eq, map,
  any, leb, is_blank, strip_prefix, if◌then◌else◌,
}
use equill.Kernel.Error.{filter as filter_error, Result, ok, err, ◌>>=◌, ◌>>◌, refuse, ok_or}
use equill.Filter.Terms.{Term, null_term, literal, is_null_term, Condition, Filter}
use equill.Filter.Text.{split_on, split_once, trim, is_nil}

unfoldable pub term_of : String → Term
term_of value = if value == "null" then null_term else literal value

abbrev pub is_empty_literal : Term → Bool
is_empty_literal null_term = false
is_empty_literal (literal s) = is_nil s

-- a leading `!` negates the whole flag
abbrev pub negation : Option String → String → Bool × String
negation (some rest) raw = (true, rest)
negation none raw = (false, raw)

abbrev pub is_many : List Term → Bool
is_many (a ∷ b ∷ rest) = true
is_many _ = false

unfoldable pub read_values : List String → Bool × String → Result Condition
unfolding term_of
read_values path (negated, raw) = do
  let values = map term_of (split_on "," raw)
  refuse (any is_empty_literal values) (filter_error "filter {flag} has an empty value")
  refuse (negated && (is_many values && any is_null_term values)) (
      filter_error
        "filter {flag} negates a list containing null; ask for the values and the absence separately so the intent is explicit")
  ok (record { path = path; negated = negated; values = values })

unfoldable pub condition : String → Result Condition
unfolding split_once split_on trim read_values
condition flag = do
  halves ← ok_or (split_once "=" flag) (filter_error "filter {flag} must be written as field=value")
  let path = map trim (split_on "." halves.0)
  refuse (is_blank halves.0 || any is_nil path)
      (filter_error "filter {flag} has an empty field name")
  read_values path (negation (strip_prefix "!" halves.1) halves.1)

unfoldable pub conditions : List String → Result (List Condition)
unfolding condition
conditions [] = ok []
conditions (flag ∷ flags) = do c ← condition flag; rest ← conditions flags; ok (c ∷ rest)

unfoldable pub parse : List String → Bool → Result Filter
unfolding conditions
parse flags strict = do cs ← conditions flags; ok (record { conditions = cs; strict = strict })

-- `candidate_limit`; `max_scan` is the engine's bound, and a `u16` ends at 65535
unfoldable pub candidate_limit : ℕ → ℕ → ℕ → Result ℕ
candidate_limit max_scan records requested =
    let wanted = if leb records requested then requested else records in
    if leb wanted 65535 && leb wanted max_scan
    then ok wanted
    else err (
        filter_error
          "a filtered search scans everything in scope, and this scope holds {records} records, past the {} the engine will scan; narrow it with --type or --namespace")
