-- ===== src/Record/WordTests.antt =====
-- Runs of the word limits.
use equill.Base.{◌≡◌, refl, ◌↔◌, [], ◌∷◌, string_eq, lookup}
use equill.Kernel.Error.{ok, err, invalid_record}
use equill.Json.Tree.{Tree, text, number, object, end, field}
use equill.Record.Words.{Limits, count, check, AllWithin, check-AllWithin}

abbrev limits : Limits
limits = ("note", ("summary", 3) ∷ []) ∷ []

abbrev short : Tree
short = object (field "summary" (text " well-measured  words ") end)

counts_two : count " well-measured  words " ≡ 2
unfolding equill.Record.Words.count_from
counts_two = refl

accepts : check limits "note" short ≡ ok tt
unfolding check lookup
accepts = refl

refuses_number :
    check limits "note" (object (field "summary" (number "3") end))
    ≡ err (invalid_record "{type_name}.{name} is limited to {} words but is not text")
unfolding check lookup
refuses_number = refl

check-AllWithin_example :
    (check limits "note" short ≡ ok tt) ↔ AllWithin short (lookup "note" limits)
check-AllWithin_example = check-AllWithin limits "note" short
